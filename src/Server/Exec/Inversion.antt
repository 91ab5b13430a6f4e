-- ===== src/Server/Exec/Inversion.antt =====
-- What is known of the parts of an action that succeeded.
use screenspace.Base.{ℕ, ◌≡◌, refl, sym, ap, ◌∙◌, Bool, true, false, Option, none, some, arith}
use screenspace.Apperr.{Error}
use screenspace.Db.Models.{Database, Reply, done, failed}
use screenspace.Server.Env.{Env}
use screenspace.Server.World.{World}
use screenspace.Server.Exec.{
  Exec, Result, ok, err, panicked, continue, pure, ◌>>=◌, throw_if, or_throw, deferred, write, read,
  reply_or,
}
use screenspace.Server.Exec.Keeps.{Keeps}
use screenspace.Server.Exec.From.{Same}

module _ {A : Type 0} where
  -- The action returned `a` and left `w'`.
  abbrev pub Returns : Exec A → World → A → World → Type 0
  Returns m w a w' = m w ≡ (ok a, w')

  pub pure-ok : (a b : A) (w w' : World) → Returns (pure a) w b w' → (b ≡ a) × (w' ≡ w)
  pure-ok a b w w' h = (cc, cc)

  pub reply_or-ok :
      (r : Reply A) (e : Error) (w w' : World) (a : A)
      → Returns (reply_or r e) w a w'
      → (r ≡ done a) × (w' ≡ w)
  reply_or-ok (done b) e w w' a h = (cc, cc)
  reply_or-ok (failed x) e w w' a h = absurd (cc)

  pub deferred-ok :
      (m : Exec A) (f : World → World) (w w' : World) (a : A)
      → Returns (deferred m f) w a w'
      → (v : World) × Returns m w a v × (w' ≡ f v)
  unfolding deferred
  deferred-ok m f w w' a h = ((m w).1, ground arith, ground arith)

module _ {A B : Type 0} where
  continue-ok :
      (f : A → Exec B) (r : Result A) (v w' : World) (b : B)
      → continue r f v ≡ (ok b, w')
      → (a : A) × (r ≡ ok a) × Returns (f a) v b w'
  continue-ok f (ok a) v w' b h = (a, refl, h)
  continue-ok f (err e) v w' b h = absurd (cc)
  continue-ok f panicked v w' b h = absurd (cc)

  pub bind-ok :
      (m : Exec A) (f : A → Exec B) (w w' : World) (b : B)
      → Returns (m >>= f) w b w'
      → (a : A) × (v : World) × Returns m w a v × Returns (f a) v b w'
  unfolding ◌>>=◌
  bind-ok m f w w' b h =
      let (a, e, h') = continue-ok f (m w).0 (m w).1 w' b h in (a, (m w).1, λ i. (e i, (m w).1), h')

  -- The same, after an action that leaves the tables alone.
  pub bind-Same-ok :
      (m : Exec A) (f : A → Exec B) (w w' : World) (b : B)
      → Keeps Same m
      → Returns (m >>= f) w b w'
      → (a : A) × (v : World) × Returns m w a v × (v.db ≡ w.db) × Returns (f a) v b w'
  bind-Same-ok m f w w' b k h =
      let (a, v, e, h') = bind-ok m f w w' b h in
      (a, v, e, ap (λ (p : Result A × World). p.1.db) (sym e) ∙ sym (k.at w), h')

module _ {B : Type 0} where
  pub throw_if-ok :
      (b : Bool) (e : Error) (f : Unit {0} → Exec B) (w w' : World) (a : B)
      → Returns (throw_if b e >>= f) w a w'
      → (b ≡ false) × Returns (f tt) w a w'
  unfolding ◌>>=◌
  throw_if-ok true e f w w' a h = absurd (cc)
  throw_if-ok false e f w w' a h = (refl, h)

module _ (env : Env) {A B : Type 0} where
  -- A query whose row was found, and the rest of the action.
  pub query-ok :
      (q : Database → Reply A) (e : Error) (f : A → Exec B) (w w' : World) (b : B)
      → Returns (read env q >>= λ r. reply_or r e >>= f) w b w'
      → (a : A) × (v : World) × (q w.db ≡ done a)
        × (v.db ≡ w.db)
        × (v.objects ≡ w.objects)
        × Returns (f a) v b w'
  unfolding read
  query-ok q e f w w' b h =
      let (r, v, first, h1) = bind-ok (read env q) (λ r. reply_or r e >>= f) w w' b h in
      let (a, u, second, h2) = bind-ok (reply_or r e) f v w' b h1 in
      let (is_done, same) = reply_or-ok r e v u a second in
      (a, u, ground arith, ground arith, ground arith, h2)

module _ (env : Env) {A : Type 0} where
  -- A write that succeeded, at the end of an action.
  pub write-ok :
      (q : ℕ → Database → Reply A × Database) (e : Error) (w w' : World) (a : A)
      → Returns (write env q >>= λ r. reply_or r e) w a w'
      → ((q w.calls w.db).0 ≡ done a) × (w'.db ≡ (q w.calls w.db).1) × (w'.objects ≡ w.objects)
  unfolding write
  write-ok q e w w' a h =
      let (r, v, first, h1) = bind-ok (write env q) (λ r. reply_or r e) w w' a h in
      let (is_done, same) = reply_or-ok r e v w' a h1 in (ground arith, ground arith, ground arith)

module _ (env : Env) {A B : Type 0} where
  -- A write that succeeded, and the rest of the action.
  pub wrote-ok :
      (q : ℕ → Database → Reply A × Database) (e : Error) (f : A → Exec B) (w w' : World) (b : B)
      → Returns (write env q >>= λ r. reply_or r e >>= f) w b w'
      → (a : A) × (v : World) × ((q w.calls w.db).0 ≡ done a)
        × (v.db ≡ (q w.calls w.db).1)
        × Returns (f a) v b w'
  unfolding write
  wrote-ok q e f w w' b h =
      let (r, v, first, h1) = bind-ok (write env q) (λ r. reply_or r e >>= f) w w' b h in
      let (a, u, second, h2) = bind-ok (reply_or r e) f v w' b h1 in
      let (is_done, same) = reply_or-ok r e v u a second in (a, u, ground arith, ground arith, h2)

module _ {A B : Type 0} where
  -- A value that was there, and the rest of the action.
  pub or_throw-ok :
      (o : Option A) (e : Error) (f : A → Exec B) (w w' : World) (b : B)
      → Returns (or_throw o e >>= f) w b w'
      → (a : A) × (o ≡ some a) × Returns (f a) w b w'
  unfolding ◌>>=◌
  or_throw-ok none e f w w' b h = absurd (cc)
  or_throw-ok (some a) e f w w' b h = (a, refl, h)
