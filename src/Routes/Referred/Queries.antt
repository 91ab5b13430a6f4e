-- ===== src/Routes/Referred/Queries.antt =====
-- Each query keeps the references.
use screenspace.Base.{
  ℕ, String, ◌≡◌, refl, ◌∙◌, Bool, true, ◌&&◌, Option, List, [], ◌∷◌, ◌++◌, any, filter, All,
  All-append, any-append, any-map_if, arith, Bool-cases, Option-cases, inl, inr, map_if, leb,
}
use screenspace.Db.Models.{User, Wallpaper, Favorite, Database}
use screenspace.Db.Users.{user_id_is, new_user, create_user}
use screenspace.Db.Wallpapers.{
  wallpaper_id_is, new_wallpaper, create_wallpaper, update_wallpaper, increment_download_count,
  update_wallpaper_after_finalize, FinalizeParams, find_wallpaper, max_bigint,
}
use screenspace.Db.Favorites.{insert_favorite, delete_favorite, new_favorite, favorite_is}
use screenspace.Db.Reports.{
  create_report, dismiss_report, new_report, report_id_is, report_dismissed,
}
use screenspace.Routes.Referred.{
  has_user, has_wallpaper, Refers, Reports, IsOwned, StaysReferred, StaysReferred-order, All-map_if,
  favorites_stay, reports_stay, owners_stay,
}

pub update-StaysReferred :
    (d : Database) (id : ℕ) (f : Wallpaper → Wallpaper)
    → ((w : Wallpaper) → (f w).id ≡ w.id)
    → ((w : Wallpaper) → (f w).uploader_id ≡ w.uploader_id)
    → StaysReferred d (update_wallpaper id f d)
unfolding update_wallpaper
update-StaysReferred d id f same_id same_owner =
    let d' : Database = update_wallpaper id f d in
    let wallpapers : ((j : ℕ) → has_wallpaper d j ≡ true → has_wallpaper d' j ≡ true) = λ j h.
      any-map_if (wallpaper_id_is j) (wallpaper_id_is id) f (λ w. rw (same_id w) refl) d.wallpapers
      ∙ h in
    record {
      users = λ j h. h;
      wallpapers = wallpapers;
      favorites = favorites_stay d d' (λ j h. h) wallpapers refl;
      reports = reports_stay d d' (λ j h. h) wallpapers refl;
      owners =
          All-map_if (IsOwned d) (IsOwned d') (wallpaper_id_is id) f (λ w k. k)
            (λ w k. rw (same_owner w) k) d.wallpapers;
    }

pub users-StaysReferred :
    (d : Database) (id : ℕ) (f : User → User)
    → ((u : User) → (f u).id ≡ u.id)
    → StaysReferred d (record d { users = map_if (user_id_is id) f d.users })
users-StaysReferred d id f same_id =
    let d' : Database = record d { users = map_if (user_id_is id) f d.users } in
    let users : ((j : ℕ) → has_user d j ≡ true → has_user d' j ≡ true) =
      λ j h. any-map_if (user_id_is j) (user_id_is id) f (λ u. rw (same_id u) refl) d.users ∙ h in
    record {
      users = users;
      wallpapers = λ j h. h;
      favorites = favorites_stay d d' users (λ j h. h) refl;
      reports = reports_stay d d' users (λ j h. h) refl;
      owners = owners_stay d d' users (λ j h. h) refl;
    }

pub create_user-StaysReferred :
    (id now : ℕ) (email hash role : String) (d : Database)
    → StaysReferred d (create_user id now email hash role d).1
unfolding create_user
create_user-StaysReferred id now email hash role d =
    let d' = (create_user id now email hash role d).1 in
    let users : ((j : ℕ) → has_user d j ≡ true → has_user d' j ≡ true) = λ j h.
      ground (arith, any-append (user_id_is j) d.users (new_user id now email hash role ∷ []), h) in
    let wallpapers : ((j : ℕ) → has_wallpaper d j ≡ true → has_wallpaper d' j ≡ true) =
      λ j h. ground (arith, h) in
    record {
      users = users;
      wallpapers = wallpapers;
      favorites = favorites_stay d d' users wallpapers (ground arith);
      reports = reports_stay d d' users wallpapers (ground arith);
      owners = owners_stay d d' users wallpapers (ground arith);
    }

-- A wallpaper whose uploader is there joins the others.
pub create_wallpaper-StaysReferred :
    (id now : ℕ) (title : String) (uploader : ℕ) (key : String) (category : Option String)
    (d : Database)
    → StaysReferred d (create_wallpaper id now title uploader key category d).1
unfolding create_wallpaper
create_wallpaper-StaysReferred id now title uploader key category d =
    let w = new_wallpaper id now title uploader key category in
    let d' : Database = record d { wallpapers = d.wallpapers ++ w ∷ [] } in
    let wallpapers : ((j : ℕ) → has_wallpaper d j ≡ true → has_wallpaper d' j ≡ true) =
      λ j h. ground (arith, any-append (wallpaper_id_is j) d.wallpapers (w ∷ []), h) in
    elim (Bool-cases (any (wallpaper_id_is id) d.wallpapers)) [
      | inl taken ↦ rw taken (StaysReferred-order.same d)
      | inr free ↦ elim (Bool-cases (has_user d uploader)) [
        | inl known ↦
            rw (free, known)
              (record {
                users = λ j h. h;
                wallpapers = wallpapers;
                favorites = favorites_stay d d' (λ j h. h) wallpapers refl;
                reports = reports_stay d d' (λ j h. h) wallpapers refl;
                owners = λ h. All-append (IsOwned d') d.wallpapers (w ∷ []) h (known, tt);
              })
        | inr unknown ↦ rw (free, unknown) (StaysReferred-order.same d)
      ]
    ]

-- A report that refers to both joins the others.
pub create_report-StaysReferred :
    (id now p u : ℕ) (reason : String) (d : Database)
    → StaysReferred d (create_report id now p u reason d).1
unfolding create_report
create_report-StaysReferred id now p u reason d =
    elim (Bool-cases (any (report_id_is id) d.reports)) [
      | inl taken ↦ rw taken (StaysReferred-order.same d)
      | inr free ↦ elim (Bool-cases (has_wallpaper d p && has_user d u)) [
        | inl can ↦
            rw (free, can)
              (record {
                users = λ id h. h;
                wallpapers = λ id h. h;
                favorites = λ h. h;
                reports = λ h.
                    All-append (Reports d) d.reports (new_report id now p u reason ∷ []) h
                      ((ground (arith, can), ground (arith, can)), tt);
                owners = λ h. h;
              })
        | inr cannot ↦ rw (free, cannot) (StaysReferred-order.same d)
      ]
    ]

pub dismiss_report-StaysReferred : (id : ℕ) (d : Database) → StaysReferred d (dismiss_report id d).1
unfolding dismiss_report
dismiss_report-StaysReferred id d = record {
  users = λ id h. h;
  wallpapers = λ id h. h;
  favorites = λ h. h;
  reports =
      All-map_if (Reports d) (Reports d) (report_id_is id)
        (λ r. record r { status = report_dismissed }) (λ r k. k) (λ r k. k) d.reports;
  owners = λ h. h;
}

pub increment-StaysReferred :
    (id : ℕ) (d : Database) → StaysReferred d (increment_download_count id d).1
unfolding increment_download_count
increment-StaysReferred id d =
    elim (Bool-cases
      (any (λ w. wallpaper_id_is id w && leb max_bigint w.download_count) d.wallpapers)) [
        | inl full ↦ rw full (StaysReferred-order.same d)
        | inr room ↦ rw room (update-StaysReferred d id _ (λ w. refl) (λ w. refl))
      ]

pub finalize-StaysReferred :
    (now : ℕ) (p : FinalizeParams) (id : ℕ) (d : Database)
    → StaysReferred d (update_wallpaper_after_finalize now p id d).1
unfolding update_wallpaper_after_finalize
finalize-StaysReferred now p id d = elim (Option-cases (find_wallpaper id d)) [
  | inl missing ↦ rw (missing, update_wallpaper_after_finalize) (StaysReferred-order.same d)
  | inr (w, found) ↦
      rw (found, update_wallpaper_after_finalize)
        (update-StaysReferred d id _ (λ w. refl) (λ w. refl))
]

-- A favorite that refers to both joins the others.
pub insert_favorite-StaysReferred :
    (now u p : ℕ) (d : Database) → StaysReferred d (insert_favorite now u p d).1
unfolding insert_favorite
insert_favorite-StaysReferred now u p d = elim (Bool-cases (any (favorite_is u p) d.favorites)) [
  | inl old ↦ rw old (StaysReferred-order.same d)
  | inr new ↦ elim (Bool-cases (has_user d u && has_wallpaper d p)) [
    | inl can ↦
        rw (new, can)
          (record {
            users = λ id h. h;
            wallpapers = λ id h. h;
            favorites = λ h.
                All-append (Refers d) d.favorites (new_favorite now u p ∷ []) h
                  ((ground (arith, can), ground (arith, can)), tt);
            reports = λ h. h;
            owners = λ h. h;
          })
    | inr cannot ↦ rw (new, cannot) (StaysReferred-order.same d)
  ]
]

All-filter_out :
    (P : Favorite → Type 0) (p : Favorite → Bool) (fs : List Favorite)
    → All P fs
    → All P (filter p fs)
All-filter_out P p [] h = tt
All-filter_out P p (f ∷ fs) h = elim (Bool-cases (p f)) [
  | inl kept ↦ rw kept (h.0, All-filter_out P p fs h.1)
  | inr dropped ↦ rw dropped (All-filter_out P p fs h.1)
]

pub delete_favorite-StaysReferred :
    (u p : ℕ) (d : Database) → StaysReferred d (delete_favorite u p d).1
unfolding delete_favorite
delete_favorite-StaysReferred u p d = record {
  users = λ id h. h;
  wallpapers = λ id h. h;
  favorites = λ h. All-filter_out (Refers d) _ d.favorites h;
  reports = λ h. h;
  owners = λ h. h;
}
