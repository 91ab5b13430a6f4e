-- ===== src/Routes/Favorites.antt =====
-- The lists of favorites under any sequence of requests: the total of a list is a count of
-- favorites, and its rows are wallpapers joined to them.
use Prim.Native.Nat.{min}
use screenspace.Base.{
  ℕ, suc, ◌-◌, ◌^◌, ◌<◌, ◌≡◌, refl, ◌∙◌, ap, Bool, true, some, List, [], ◌∷◌, any, find, filter,
  length, All, take, drop, length-take, length-drop, pos, int32_small, arith, Bool-cases, inl, inr,
}
use screenspace.Config.{Config}
use screenspace.Db.Models.{WallpaperRow, Favorite, Database, page}
use screenspace.Db.Order.{order_by, order_by-All, length-order_by}
use screenspace.Db.Wallpapers.{wallpaper_id_is}
use screenspace.Db.Favorites.{
  favorite_of, newer_favorite, join_wallpapers, list_favorites_by_user, count_favorites_by_user,
}
use screenspace.Server.Env.{Env}
use screenspace.Server.World.{World}
use screenspace.Server.Exec.{ok, ◌>>=◌, read}
use screenspace.Server.Request.{Request}
use screenspace.Service.Favorite.{list_by_user}
use screenspace.Routes.{Route, serve_all}
use screenspace.Routes.Referred.{Refers, IsReferred}
use screenspace.Routes.References.{serve_all-IsReferred}

find-any :
    {A : Type 0} (p : A → Bool) (xs : List A) → any p xs ≡ true → (x : A) × (find p xs ≡ some x)
find-any p [] h = absurd (ground (arith, h))
find-any p (x ∷ xs) h = elim (Bool-cases (p x)) [
  | inl hit ↦ (x, rw hit refl)
  | inr miss ↦ let (y, found) = find-any p xs (rw miss at h) in (y, rw miss found)
]

All-filtered :
    {A : Type 0} (P : A → Type 0) (p : A → Bool) (xs : List A) → All P xs → All P (filter p xs)
All-filtered P p [] h = tt
All-filtered P p (x ∷ xs) h = elim (Bool-cases (p x)) [
  | inl hit ↦ rw hit (h.0, All-filtered P p xs h.1)
  | inr miss ↦ rw miss (All-filtered P p xs h.1)
]

-- No favorite is lost in the join.
length-join_wallpapers :
    (d : Database) (fs : List Favorite)
    → All (Refers d) fs
    → length (join_wallpapers d fs) ≡ length fs
unfolding join_wallpapers
length-join_wallpapers d [] h = refl
length-join_wallpapers d (f ∷ fs) h =
    let (w, found) = find-any (wallpaper_id_is f.wallpaper_id) d.wallpapers h.0.1 in
    rw (found, join_wallpapers, length) (ap suc (length-join_wallpapers d fs h.1))

-- The favorites of the user.
abbrev pub favorites_of : ℕ → Database → List Favorite
favorites_of user_id d = filter (favorite_of user_id) d.favorites

-- The list of favorites, before it is cut into pages.
abbrev joined_rows : (ℕ → ℕ) → ℕ → Database → List WallpaperRow
joined_rows ties user_id d =
    join_wallpapers d (order_by (λ f. ties f.wallpaper_id) newer_favorite (favorites_of user_id d))

length-joined_rows :
    (ties : ℕ → ℕ) (user_id : ℕ) (d : Database)
    → IsReferred d
    → length (joined_rows ties user_id d) ≡ length (favorites_of user_id d)
length-joined_rows ties u d h =
    length-join_wallpapers d _ (
      order_by-All (λ f. ties f.wallpaper_id) newer_favorite (Refers d) _
        (All-filtered (Refers d) (favorite_of u) d.favorites h.favorites))
    ∙ length-order_by (λ f. ties f.wallpaper_id) newer_favorite (favorites_of u d)

-- The answer has the total, and the rows that are left of it at the offset, up to the limit.
pub record IsFullPage (env : Env) (user_id limit offset : ℕ) (w : World) : Type 0 where
  pub rows : List WallpaperRow
  pub total : ℕ
  pub answered : (list_by_user env user_id (pos limit) (pos offset) w).0 ≡ ok (rows, total)
  pub counted : total ≡ length (favorites_of user_id w.db)
  pub full : length rows ≡ min limit (total - offset)

module _ (env : Env) (up : (n : ℕ) → env.db_up n ≡ true) (user_id limit offset : ℕ)
    (fits : limit < 2 ^ 31) (fits' : offset < 2 ^ 31) where
  list_by_user-IsFullPage : (w : World) → IsReferred w.db → IsFullPage env user_id limit offset w
  unfolding list_by_user ◌>>=◌ read count_favorites_by_user list_favorites_by_user page
  list_by_user-IsFullPage w h = record {
    rows =
        take limit (drop offset (joined_rows (env.tie_rank (pos limit) (pos offset)) user_id w.db));
    total = length (favorites_of user_id w.db);
    answered =
        rw (up w.calls, up (suc w.calls), int32_small limit fits, int32_small offset fits') refl;
    counted = refl;
    full = omega (
      arith,
      length-take limit
          (drop offset (joined_rows (env.tie_rank (pos limit) (pos offset)) user_id w.db)),
      length-drop offset (joined_rows (env.tie_rank (pos limit) (pos offset)) user_id w.db),
      length-joined_rows (env.tie_rank (pos limit) (pos offset)) user_id w.db h,
    );
  }

  -- While the database can be reached, and where every reference between the tables was to a row
  -- that is there before some requests, the list of favorites of any user after them is complete:
  -- its total is the number of favorites of the user, and a page of it, of a limit and an offset
  -- below 2^31, has as many rows as the total leaves at the offset, up to the limit.
  pub serve_all-IsFullPage :
      (cfg : Config) (start_time : ℕ) (requests : List (Route × Request)) (w : World)
      → IsReferred w.db
      → IsFullPage env user_id limit offset (serve_all env cfg start_time requests w)
  serve_all-IsFullPage cfg t requests w h =
      list_by_user-IsFullPage (serve_all env cfg t requests w)
        (serve_all-IsReferred env cfg t requests w h)
