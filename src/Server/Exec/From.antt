-- ===== src/Server/Exec/From.antt =====
-- What an action that starts at known tables may leave: for an action that reads, tests what it
-- read, and writes once.
use screenspace.Base.{ℕ, suc, ◌≡◌, refl, ◌∙◌, sym, subst, Bool, true, false, Bool-cases, inl, inr}
use screenspace.Apperr.{Error}
use screenspace.Db.Models.{Database, Reply, done, failed}
use screenspace.Server.Env.{Env}
use screenspace.Server.World.{World}
use screenspace.Server.Exec.{
  Exec, Result, ok, err, panicked, continue, ◌>>=◌, throw_if, deferred, write, read, reply_or,
}
use screenspace.Server.Exec.Keeps.{IsPreorder, Keeps}

-- The relation of the actions that leave the tables alone.
abbrev pub Same : Database → Database → Type 0
Same a b = a ≡ b

pub Same-order : IsPreorder Same
Same-order = record { same = λ d. refl; then_also = λ a b c p q. p ∙ q }

-- Whatever the result, the tables after the action have the property, if they are `d` before it.
pub record From {A : Type 0} (d : Database) (P : Database → Type 0) (m : Exec A) : Type 0 where
  pub at : (w : World) → w.db ≡ d → P (m w).1.db

db-reply_or : {A : Type 0} (r : Reply A) (x : Error) (w : World) → (reply_or r x w).1.db ≡ w.db
db-reply_or (done a) x w = refl
db-reply_or (failed y) x w = refl

module _ (d : Database) (P : Database → Type 0) (unchanged : P d) where
  pub From-Same : {A : Type 0} (m : Exec A) → Keeps Same m → From d P m
  From-Same m k = record { at = λ w e. subst P (sym e ∙ k.at w) unchanged }

  module _ {A B : Type 0} where
    continue-From :
        (f : A → Exec B) (r : Result A) (w : World)
        → ((a : A) → From d P (f a))
        → w.db ≡ d
        → P (continue r f w).1.db
    continue-From f (ok a) w kf e = (kf a).at w e
    continue-From f (err x) w kf e = subst P (sym e) unchanged
    continue-From f panicked w kf e = subst P (sym e) unchanged

    -- An action that leaves the tables alone, and then another.
    pub From-bind :
        (m : Exec A) (f : A → Exec B)
        → Keeps Same m
        → ((a : A) → From d P (f a))
        → From d P (m >>= f)
    unfolding ◌>>=◌
    From-bind m f km kf = record {
      at = λ w e. let (r, w') = m w in continue-From f r w' kf (sym (km.at w) ∙ e);
    }

  module _ {B : Type 0} where
    -- After a test that did not throw, its outcome is known.
    pub From-throw_if :
        (b : Bool) (x : Error) (f : Unit {0} → Exec B)
        → (b ≡ false → From d P (f tt))
        → From d P (throw_if b x >>= f)
    unfolding ◌>>=◌
    From-throw_if true x f kf = record { at = λ w e. subst P (sym e) unchanged }
    From-throw_if false x f kf = kf refl

  module _ (env : Env) {A B : Type 0} where
    reply-From :
        (q : Database → Reply A) (r : Reply A) (x : Error) (f : A → Exec B) (w : World)
        → ((a : A) → r ≡ done a → q d ≡ done a)
        → ((a : A) → q d ≡ done a → From d P (f a))
        → w.db ≡ d
        → P ((reply_or r x >>= f) w).1.db
    unfolding ◌>>=◌
    reply-From q (done a) x f w known kf e = (kf a (known a refl)).at w e
    reply-From q (failed y) x f w known kf e = subst P (sym e) unchanged

    -- After a query that returned a row, the row is the one of the tables.
    pub From-read :
        (q : Database → Reply A) (x : Error) (f : A → Exec B)
        → ((a : A) → q d ≡ done a → From d P (f a))
        → From d P (read env q >>= λ r. reply_or r x >>= f)
    unfolding ◌>>=◌ read
    From-read q x f kf = record {
      at = λ w e. elim (Bool-cases (env.db_up w.calls)) [
        | inl up ↦
            rw up
              (reply-From q (q w.db) x f (record w { calls = suc w.calls }) (λ a h. rw e at h) kf e)
        | inr down ↦ rw down (subst P (sym e) unchanged)
      ];
    }

  module _ (env : Env) {A : Type 0} where
    -- A write, and the end of the action.
    pub From-write :
        (q : ℕ → Database → Reply A × Database) (x : Error)
        → ((n : ℕ) → P (q n d).1)
        → From d P (write env q >>= λ r. reply_or r x)
    unfolding ◌>>=◌ write
    From-write q x step = record {
      at = λ w e. elim (Bool-cases (env.db_up w.calls)) [
        | inl up ↦ rw (up, e) (rw (db-reply_or (q w.calls d).0 x _) (step w.calls))
        | inr down ↦ rw down (subst P (sym e) unchanged)
      ];
    }

module _ (d : Database) (P : Database → Type 0) {A : Type 0} where
  pub From-deferred :
      (m : Exec A) (f : World → World)
      → ((w : World) → (f w).db ≡ w.db)
      → From d P m
      → From d P (deferred m f)
  unfolding deferred
  From-deferred m f same k = record { at = λ w e. rw (same (m w).1) (k.at w e) }

-- An action that leaves the tables alone keeps every such relation.
pub Keeps-of-Same :
    {R : Database → Database → Type 0} (order : IsPreorder R) {A : Type 0} (m : Exec A)
    → Keeps Same m
    → Keeps R m
Keeps-of-Same {R = R} order m k = record { at = λ w. subst (R w.db) (k.at w) (order.same w.db) }
