-- ===== src/Server/Exec/Keeps.antt =====
-- Relations between the tables before and after an action, one rule for each way to build one.
use screenspace.Base.{
  ℕ, ◌≡◌, Bool, true, false, Option, none, some, if◌then◌else◌, Bool-cases, inl, inr,
}
use screenspace.Apperr.{Error}
use screenspace.Db.Models.{Database, Reply, done, failed}
use screenspace.Server.Env.{Env}
use screenspace.Server.World.{World}
use screenspace.Server.Exec.{
  Exec, Result, ok, err, panicked, pure, throw, nil_dereference, or_throw, continue, ◌>>=◌,
  throw_if, deferred, call, modify, gets, write, read, reply_or,
}

-- A relation that a run of changes may go through.
pub record IsPreorder (R : Database → Database → Type 0) : Type 0 where
  pub same : (d : Database) → R d d
  pub then_also : (a b c : Database) → R a b → R b c → R a c

-- Whatever the result, the tables after the action stand in the relation to those before.
pub record Keeps {A : Type 0} (R : Database → Database → Type 0) (m : Exec A) : Type 0 where
  pub at : (w : World) → R w.db (m w).1.db

module _ {R : Database → Database → Type 0} (order : IsPreorder R) where
  pub Keeps-pure : {A : Type 0} (a : A) → Keeps R (pure a)
  Keeps-pure a = record { at = λ w. order.same w.db }

  pub Keeps-throw : {A : Type 0} (e : Error) → Keeps R (throw {A = A} e)
  Keeps-throw e = record { at = λ w. order.same w.db }

  pub Keeps-nil_dereference : {A : Type 0} → Keeps R (nil_dereference {A = A})
  Keeps-nil_dereference = record { at = λ w. order.same w.db }

  pub Keeps-or_throw : {A : Type 0} (o : Option A) (e : Error) → Keeps R (or_throw o e)
  Keeps-or_throw none e = Keeps-throw e
  Keeps-or_throw (some a) e = Keeps-pure a

  pub Keeps-reply_or : {A : Type 0} (r : Reply A) (e : Error) → Keeps R (reply_or r e)
  Keeps-reply_or (done a) e = Keeps-pure a
  Keeps-reply_or (failed _) e = Keeps-throw e

  pub Keeps-throw_if : (b : Bool) (e : Error) → Keeps R (throw_if b e)
  Keeps-throw_if true e = Keeps-throw e
  Keeps-throw_if false e = Keeps-pure tt

  pub Keeps-call : {A : Type 0} (f : ℕ → A) → Keeps R (call f)
  unfolding call
  Keeps-call f = record { at = λ w. order.same w.db }

  pub Keeps-gets : {A : Type 0} (f : World → A) → Keeps R (gets f)
  Keeps-gets f = record { at = λ w. order.same w.db }

  pub Keeps-read : (env : Env) {A : Type 0} (q : Database → Reply A) → Keeps R (read env q)
  unfolding read
  Keeps-read env q = record { at = λ w. order.same w.db }

  -- A change of the rest of the state.
  pub Keeps-modify : (f : World → World) → ((w : World) → (f w).db ≡ w.db) → Keeps R (modify f)
  Keeps-modify f same = record { at = λ w. rw (same w) (order.same w.db) }

  pub Keeps-write :
      (env : Env) {A : Type 0} (q : ℕ → Database → Reply A × Database)
      → ((n : ℕ) (d : Database) → R d (q n d).1)
      → Keeps R (write env q)
  unfolding write
  Keeps-write env q step = record {
    at = λ w. elim (Bool-cases (env.db_up w.calls)) [
      | inl up ↦ rw up (step w.calls w.db)
      | inr down ↦ rw down (order.same w.db)
    ];
  }

  module _ {A B : Type 0} where
    continue-R :
        (f : A → Exec B) (d : Database) (r : Result A) (w : World)
        → ((a : A) → Keeps R (f a))
        → R d w.db
        → R d (continue r f w).1.db
    continue-R f d (ok a) w kf h = order.then_also d w.db (f a w).1.db h ((kf a).at w)
    continue-R f d (err e) w kf h = h
    continue-R f d panicked w kf h = h

    pub Keeps-bind :
        (m : Exec A) (f : A → Exec B) → Keeps R m → ((a : A) → Keeps R (f a)) → Keeps R (m >>= f)
    unfolding ◌>>=◌
    Keeps-bind m f km kf = record {
      at = λ w. let (r, w') = m w in continue-R f w.db r w' kf (km.at w);
    }

module _ {R : Database → Database → Type 0} {A : Type 0} where
  pub Keeps-deferred :
      (m : Exec A) (f : World → World)
      → ((w : World) → (f w).db ≡ w.db)
      → Keeps R m
      → Keeps R (deferred m f)
  unfolding deferred
  Keeps-deferred m f same k = record { at = λ w. rw (same (m w).1) (k.at w) }

  pub Keeps-if : (b : Bool) (m n : Exec A) → Keeps R m → Keeps R n → Keeps R (if b then m else n)
  Keeps-if true m n km kn = km
  Keeps-if false m n km kn = kn

pub ruleset keeps_rules = (
  Keeps-pure, Keeps-throw, Keeps-nil_dereference, Keeps-or_throw, Keeps-reply_or, Keeps-throw_if,
  Keeps-call, Keeps-gets, Keeps-read, Keeps-modify, Keeps-bind, Keeps-deferred, Keeps-if,
)
