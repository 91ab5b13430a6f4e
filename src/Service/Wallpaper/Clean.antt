-- ===== src/Service/Wallpaper/Clean.antt =====
-- Actions that leave no files behind but some: one rule for each way to build one.
use screenspace.Base.{
  ℕ, String, ◌≡◌, ◌⊎◌, sym, ◌∙◌, Bool, true, false, not, ◌&&◌, List, [], ◌∷◌, arith, any, filter,
  str_eq, eq_iff, inl, inr,
}
use screenspace.Apperr.{Error}
use screenspace.Db.Models.{Database, Reply, done, failed}
use screenspace.Server.Env.{Env}
use screenspace.Server.World.{World}
use screenspace.Server.Exec.{
  Exec, Result, ok, err, panicked, continue, pure, throw, throw_if, ◌>>=◌, deferred, write, read,
  reply_or,
}
use screenspace.Service.Wallpaper.{remove_file}

-- The path is one of the files.
abbrev pub has_file : String → World → Bool
has_file path w = any (λ f. str_eq f path) w.files

pub any-remove :
    (path p : String) (fs : List String)
    → any (λ f. str_eq f path) (filter (λ f. not (str_eq f p)) fs)
      ≡ (not (str_eq p path) && any (λ f. str_eq f path) fs)
any-remove path p [] = ground arith
any-remove path p (f ∷ fs) =
    ground (arith, any-remove path p fs, eq_iff f path, eq_iff f p, eq_iff p path)

-- The file was there, or is one of those that may be left behind.
abbrev pub Was : (String → Type 0) → String → World → Type 0
Was L path w = (has_file path w ≡ true) ⊎ L path

-- The action leaves no other file that was not there before.
pub record IsClean {A : Type 0} (L : String → Type 0) (m : Exec A) : Type 0 where
  pub at : (w : World) (path : String) → has_file path (m w).1 ≡ true → Was L path w

module _ {A : Type 0} (L : String → Type 0) where
  -- The action leaves also the file that its result names.
  abbrev pub LeavesIn : (A → String) → Result A → World → String → Type 0
  LeavesIn name (ok a) w path = Was L path w ⊎ (name a ≡ path)
  LeavesIn name (err e) w path = Was L path w
  LeavesIn name panicked w path = Was L path w

  pub record Leaves (name : A → String) (m : Exec A) : Type 0 where
    pub left :
        (w : World) (path : String) → has_file path (m w).1 ≡ true → LeavesIn name (m w).0 w path

  pub IsClean-pure : (a : A) → IsClean L (pure a)
  IsClean-pure a = record { at = λ w path h. inl h }

  pub IsClean-throw : (e : Error) → IsClean L (throw {A = A} e)
  IsClean-throw e = record { at = λ w path h. inl h }

  pub IsClean-reply_or : (r : Reply A) (e : Error) → IsClean L (reply_or r e)
  IsClean-reply_or (done a) e = IsClean-pure a
  IsClean-reply_or (failed x) e = IsClean-throw e

  pub IsClean-read : (env : Env) (q : Database → Reply A) → IsClean L (read env q)
  unfolding read
  IsClean-read env q = record { at = λ w path h. inl h }

  pub IsClean-write : (env : Env) (q : ℕ → Database → Reply A × Database) → IsClean L (write env q)
  unfolding write
  IsClean-write env q = record { at = λ w path h. inl (ground arith) }

module _ (L : String → Type 0) where
  pub IsClean-throw_if : (b : Bool) (e : Error) → IsClean L (throw_if b e)
  IsClean-throw_if true e = record { at = λ w path h. inl h }
  IsClean-throw_if false e = record { at = λ w path h. inl h }

  -- What was left by the first of two actions was there before, or may be left.
  passed_on :
      (w w' : World) (path : String)
      → (has_file path w' ≡ true → Was L path w)
      → Was L path w'
      → Was L path w
  passed_on w w' path h (inl k) = h k
  passed_on w w' path h (inr k) = inr k

module _ {A : Type 0} (L : String → Type 0) where
  left_before :
      (name : A → String) (a : A) (w : World) (path : String)
      → not (str_eq (name a) path) ≡ true
      → LeavesIn L name (ok a) w path
      → Was L path w
  left_before name a w path other (inl k) = k
  left_before name a w path other (inr same) = absurd (ground (arith, eq_iff (name a) path))

module _ {A B : Type 0} (L : String → Type 0) where
  continue-IsClean :
      (f : A → Exec B) (r : Result A) (w : World) (path : String)
      → ((a : A) → IsClean L (f a))
      → has_file path (continue r f w).1 ≡ true
      → Was L path w
  continue-IsClean f (ok a) w path k h = (k a).at w path h
  continue-IsClean f (err e) w path k h = inl h
  continue-IsClean f panicked w path k h = inl h

  pub IsClean-bind :
      (m : Exec A) (f : A → Exec B)
      → IsClean L m
      → ((a : A) → IsClean L (f a))
      → IsClean L (m >>= f)
  unfolding ◌>>=◌
  IsClean-bind m f km kf = record {
    at = λ w path h.
        passed_on L w (m w).1 path (km.at w path) (continue-IsClean f (m w).0 (m w).1 path kf h);
  }

  continue-Leaves :
      (name : A → String) (f : A → Exec B) (r : Result A) (w w' : World) (path : String)
      → ((a : A) → IsClean L (f a))
      → (has_file path w' ≡ true → LeavesIn L name r w path)
      → has_file path (continue r (λ a. deferred (f a) (remove_file (name a))) w').1 ≡ true
      → Was L path w
  unfolding deferred
  continue-Leaves name f (ok a) w w' path k left h =
      let w'' = (f a w').1 in
      let both : (not (str_eq (name a) path) && has_file path w'') ≡ true =
        sym (any-remove path (name a) w''.files) ∙ h in
      let other : not (str_eq (name a) path) ≡ true = ground (arith, both) in
      let still : has_file path w'' ≡ true = ground (arith, both) in
      passed_on L w w' path (λ there. left_before L name a w path other (left there))
        ((k a).at w' path still)
  continue-Leaves name f (err e) w w' path k left h = left h
  continue-Leaves name f panicked w w' path k left h = left h

  -- What the first action names is removed after the second.
  pub IsClean-deferred :
      (name : A → String) (m : Exec A) (f : A → Exec B)
      → Leaves L name m
      → ((a : A) → IsClean L (f a))
      → IsClean L (m >>= λ a. deferred (f a) (remove_file (name a)))
  unfolding ◌>>=◌
  IsClean-deferred name m f km kf = record {
    at = λ w path h. continue-Leaves name f (m w).0 w (m w).1 path kf (km.left w path) h;
  }
