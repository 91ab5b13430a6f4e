-- ===== src/Server/Exec.antt =====
-- Actions: what a Go function does to the state, and its result, its error or its panic. What was
-- written before an error stays written.
pub mod Keeps
pub mod From
pub mod Inversion
use screenspace.Base.{
  ℕ, suc, ◌≡◌, refl, String, Bool, true, false, Option, none, some, if◌then◌else◌,
}
use screenspace.Apperr.{Error}
use screenspace.Db.Models.{Database, Reply, done, failed, DbError, unavailable}
use screenspace.Server.Env.{Env}
use screenspace.Server.World.{World}

pub data Result {ℓ} (A : Type ℓ) : Type ℓ where
  ok : A → Result A
  err : Error → Result A
  panicked : Result A

abbrev pub Exec : Type 0 → Type 0
Exec A = World → Result A × World

module _ {A : Type 0} where
  abbrev pub pure : A → Exec A
  pure a w = (ok a, w)

  -- return nil, e
  abbrev pub throw : Error → Exec A
  throw e w = (err e, w)

  -- A nil pointer is dereferenced.
  abbrev pub nil_dereference : Exec A
  nil_dereference w = (panicked, w)

  -- if err != nil { return nil, e }
  abbrev pub or_throw : Option A → Error → Exec A
  or_throw none e = throw e
  or_throw (some a) e = pure a

module _ {A B : Type 0} where
  abbrev pub continue : Result A → (A → Exec B) → Exec B
  continue (ok a) f w = f a w
  continue (err e) f w = (err e, w)
  continue panicked f w = (panicked, w)

  infixl 5 ◌>>=◌ ◌>>◌
  unfoldable pub ◌>>=◌ : Exec A → (A → Exec B) → Exec B
  ◌>>=◌ m f w = let (r, w') = m w in continue r f w'

  abbrev pub ◌>>◌ : Exec A → Exec B → Exec B
  m >> k = m >>= λ _. k

-- if test { return nil, e }
abbrev pub throw_if : Bool → Error → Exec (Unit {0})
throw_if true e = throw e
throw_if false e = pure tt

-- `defer f()`: it runs whatever the result is.
unfoldable pub deferred : {A : Type 0} → Exec A → (World → World) → Exec A
deferred m f w = let (r, w') = m w in (r, f w')

-- One call of outside code: its answer, by the number of the calls before it.
unfoldable pub call : {A : Type 0} → (ℕ → A) → Exec A
call answer w = (ok (answer w.calls), record w { calls = suc w.calls })

-- A change of the state.
abbrev pub modify : (World → World) → Exec (Unit {0})
modify f w = (ok tt, f w)

abbrev pub gets : {A : Type 0} → (World → A) → Exec A
gets f w = (ok (f w), w)

module _ (env : Env) {A : Type 0} where
  -- A query that may write; it gets the number of the calls before it, for its ids and times. Its
  -- errors are values here.
  unfoldable pub write : (ℕ → Database → Reply A × Database) → Exec (Reply A)
  write query w =
      if env.db_up w.calls
      then (let (r, db) = query w.calls w.db in (ok r, record w { db = db; calls = suc w.calls }))
      else (ok (failed unavailable), record w { calls = suc w.calls })

  unfoldable pub read : (Database → Reply A) → Exec (Reply A)
  read query w = (
    ok (if env.db_up w.calls then query w.db else failed unavailable),
    record w { calls = suc w.calls },
  )

-- if err != nil { return nil, e }, after a query
abbrev pub reply_or : {A : Type 0} → Reply A → Error → Exec A
reply_or (done a) e = pure a
reply_or (failed _) e = throw e
