-- ===== src/Seed/References.antt =====
-- The references between the tables after the seed command.
use screenspace.Base.{
  ℕ, String, ◌≡◌, refl, true, ◌&&◌, List, [], ◌∷◌, ◌++◌, any, All-append, any-append, arith,
  Bool-cases, inl, inr,
}
use screenspace.Config.{Config}
use screenspace.Db.Models.{Wallpaper, Database}
use screenspace.Db.Wallpapers.{wallpaper_id_is}
use screenspace.Db.Favorites.{favorite_is, new_favorite}
use screenspace.Server.Env.{Env}
use screenspace.Server.World.{World}
use screenspace.Seed.Videos.{SeedVideo}
use screenspace.Seed.Queries.{fits_int4, insert_wallpaper, insert_favorite_once}
use screenspace.Seed.Footage.{Tools}
use screenspace.Seed.Run.{run}
use screenspace.Seed.Keeps.{SeedSteps, run-Keeps}
use screenspace.Routes.Referred.{
  has_user, has_wallpaper, Refers, IsOwned, IsReferred, StaysReferred, StaysReferred-order,
  favorites_stay, reports_stay,
}
use screenspace.Routes.Referred.Queries.{create_user-StaysReferred}

-- A wallpaper whose uploader is there joins the others.
joined-StaysReferred :
    (w : Wallpaper) (d : Database)
    → has_user d w.uploader_id ≡ true
    → StaysReferred d (record d { wallpapers = d.wallpapers ++ w ∷ [] })
joined-StaysReferred w d known =
    let d' : Database = record d { wallpapers = d.wallpapers ++ w ∷ [] } in
    let wallpapers : ((j : ℕ) → has_wallpaper d j ≡ true → has_wallpaper d' j ≡ true) =
      λ j h. ground (arith, any-append (wallpaper_id_is j) d.wallpapers (w ∷ []), h) in
    record {
      users = λ j h. h;
      wallpapers = wallpapers;
      favorites = favorites_stay d d' (λ j h. h) wallpapers refl;
      reports = reports_stay d d' (λ j h. h) wallpapers refl;
      owners = λ h. All-append (IsOwned d') d.wallpapers (w ∷ []) h (known, tt);
    }

insert_wallpaper-StaysReferred :
    (w : Wallpaper) (d : Database) → StaysReferred d (insert_wallpaper w d).1
unfolding insert_wallpaper
insert_wallpaper-StaysReferred w d = elim (Bool-cases (fits_int4 w.width && fits_int4 w.height)) [
  | inl fits ↦ elim (Bool-cases (any (wallpaper_id_is w.id) d.wallpapers)) [
    | inl taken ↦ rw (fits, taken) (StaysReferred-order.same d)
    | inr free ↦ elim (Bool-cases (has_user d w.uploader_id)) [
      | inl known ↦ rw (fits, free, known) (joined-StaysReferred w d known)
      | inr unknown ↦ rw (fits, free, unknown) (StaysReferred-order.same d)
    ]
  ]
  | inr large ↦ rw large (StaysReferred-order.same d)
]

insert_favorite_once-StaysReferred :
    (now u p : ℕ) (d : Database) → StaysReferred d (insert_favorite_once now u p d).1
unfolding insert_favorite_once
insert_favorite_once-StaysReferred now u p d =
    elim (Bool-cases (any (favorite_is u p) d.favorites)) [
      | inl old ↦ rw old (StaysReferred-order.same d)
      | inr new ↦ elim (Bool-cases (has_user d u && has_wallpaper d p)) [
        | inl can ↦
            rw (new, can)
              (record {
                users = λ id h. h;
                wallpapers = λ id h. h;
                favorites = λ h.
                    All-append (Refers d) d.favorites (new_favorite now u p ∷ []) h
                      ((ground (arith, can), ground (arith, can)), tt);
                reports = λ h. h;
                owners = λ h. h;
              })
        | inr cannot ↦ rw (new, cannot) (StaysReferred-order.same d)
      ]
    ]

-- Where every favorite and every report refers to a user and a wallpaper that are there, and every
-- wallpaper has an uploader that is there, it is so after the seed command, wherever it stops.
pub run-IsReferred :
    (env : Env) (tools : Tools) (cfg : Config) (vs : List SeedVideo) (email : String) (w : World)
    → IsReferred w.db
    → IsReferred (run env tools cfg vs email w).1.db
run-IsReferred env tools cfg vs email w h =
    let steps : SeedSteps StaysReferred = record {
      registered = create_user-StaysReferred;
      inserted = insert_wallpaper-StaysReferred;
      favored = insert_favorite_once-StaysReferred;
    } in
    let k = (run-Keeps env tools cfg StaysReferred-order steps vs email).at w in
    record {
      favorites = k.favorites h.favorites;
      reports = k.reports h.reports;
      owners = k.owners h.owners;
    }
