-- ===== src/Routes/Referred.antt =====
-- The references between the tables: of favorites and reports to users and wallpapers, and of
-- wallpapers to their uploaders.
pub mod Queries
use screenspace.Base.{ℕ, ◌≡◌, Bool, true, List, [], ◌∷◌, any, map_if, All, Bool-cases, inl, inr}
use screenspace.Db.Models.{Wallpaper, Favorite, Report, Database}
use screenspace.Db.Users.{user_id_is}
use screenspace.Db.Wallpapers.{wallpaper_id_is}
use screenspace.Server.Exec.Keeps.{IsPreorder}

abbrev pub has_user : Database → ℕ → Bool
has_user d id = any (user_id_is id) d.users

abbrev pub has_wallpaper : Database → ℕ → Bool
has_wallpaper d id = any (wallpaper_id_is id) d.wallpapers

-- The favorite refers to a user and a wallpaper that are there.
abbrev pub Refers : Database → Favorite → Type 0
Refers d f = (has_user d f.user_id ≡ true) × (has_wallpaper d f.wallpaper_id ≡ true)

-- So does the report.
abbrev pub Reports : Database → Report → Type 0
Reports d r = (has_user d r.reporter_id ≡ true) × (has_wallpaper d r.wallpaper_id ≡ true)

-- The uploader of the wallpaper is there.
abbrev pub IsOwned : Database → Wallpaper → Type 0
IsOwned d w = has_user d w.uploader_id ≡ true

-- Every reference is to a row that is there.
pub record IsReferred (d : Database) : Type 0 where
  pub favorites : All (Refers d) d.favorites
  pub reports : All (Reports d) d.reports
  pub owners : All (IsOwned d) d.wallpapers

-- Users and wallpapers only come, and references that are all to rows still are.
pub record StaysReferred (d d' : Database) : Type 0 where
  pub users : (id : ℕ) → has_user d id ≡ true → has_user d' id ≡ true
  pub wallpapers : (id : ℕ) → has_wallpaper d id ≡ true → has_wallpaper d' id ≡ true
  pub favorites : All (Refers d) d.favorites → All (Refers d') d'.favorites
  pub reports : All (Reports d) d.reports → All (Reports d') d'.reports
  pub owners : All (IsOwned d) d.wallpapers → All (IsOwned d') d'.wallpapers

pub StaysReferred-order : IsPreorder StaysReferred
StaysReferred-order = record {
  same = λ d. record {
    users = λ id h. h;
    wallpapers = λ id h. h;
    favorites = λ h. h;
    reports = λ h. h;
    owners = λ h. h;
  };
  then_also = λ a b c p q. record {
    users = λ id h. q.users id (p.users id h);
    wallpapers = λ id h. q.wallpapers id (p.wallpapers id h);
    favorites = λ h. q.favorites (p.favorites h);
    reports = λ h. q.reports (p.reports h);
    owners = λ h. q.owners (p.owners h);
  };
}

module _ {ℓ κ} {A : Type ℓ} (P Q : A → Type κ) where
  pub All-mono : ((x : A) → P x → Q x) → (xs : List A) → All P xs → All Q xs
  All-mono k [] h = tt
  All-mono k (x ∷ xs) h = (k x h.0, All-mono k xs h.1)

  -- An UPDATE of the rows that pass a test.
  pub All-map_if :
      (p : A → Bool) (f : A → A)
      → ((x : A) → P x → Q x)
      → ((x : A) → P x → Q (f x))
      → (xs : List A) → All P xs
      → All Q (map_if p f xs)
  All-map_if p f same changed [] h = tt
  All-map_if p f same changed (x ∷ xs) h = elim (Bool-cases (p x)) [
    | inl hit ↦ rw hit (changed x h.0, All-map_if p f same changed xs h.1)
    | inr miss ↦ rw miss (same x h.0, All-map_if p f same changed xs h.1)
  ]

-- What follows from the growth of the two tables for those that stay as they were.
module _ (d d' : Database) (users : (id : ℕ) → has_user d id ≡ true → has_user d' id ≡ true)
    (wallpapers : (id : ℕ) → has_wallpaper d id ≡ true → has_wallpaper d' id ≡ true) where
  pub favorites_stay :
      d'.favorites ≡ d.favorites → All (Refers d) d.favorites → All (Refers d') d'.favorites
  favorites_stay same h = rw same (
      All-mono (Refers d) (Refers d') (λ f k. (users f.user_id k.0, wallpapers f.wallpaper_id k.1))
        d.favorites h)

  pub reports_stay :
      d'.reports ≡ d.reports → All (Reports d) d.reports → All (Reports d') d'.reports
  reports_stay same h = rw same (
      All-mono (Reports d) (Reports d')
        (λ r k. (users r.reporter_id k.0, wallpapers r.wallpaper_id k.1)) d.reports h)

  pub owners_stay :
      d'.wallpapers ≡ d.wallpapers → All (IsOwned d) d.wallpapers → All (IsOwned d') d'.wallpapers
  owners_stay same h =
      rw same (All-mono (IsOwned d) (IsOwned d') (λ w k. users w.uploader_id k) d.wallpapers h)
