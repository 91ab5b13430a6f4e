-- ===== src/Service/Wallpaper/Lifecycle.antt =====
-- The life of a wallpaper: pending, then pending_review, then approved or rejected.
use screenspace.Base.{
  ℕ, String, ◌≡◌, refl, sym, subst, false, not, Option, some, str_eq, arith, eq_iff, Option-cases,
  inl, inr,
}
use screenspace.Types.{status_pending, status_pending_review, status_approved, status_rejected}
use screenspace.Config.{Config}
use screenspace.Db.Models.{Wallpaper, WallpaperRow, Database, done}
use screenspace.Db.Wallpapers.{
  find_wallpaper, to_row, update_wallpaper, get_wallpaper_by_id, update_wallpaper_status,
  update_wallpaper_status_with_reason, update_wallpaper_after_finalize, FinalizeParams,
}
use screenspace.Db.Wallpapers.Laws.{find_wallpaper-id}
use screenspace.Db.Wallpapers.Statuses.{Rows, Rows-refl, update-Rows}
use screenspace.Server.Env.{Env, ProbeResult}
use screenspace.Server.World.{World}
use screenspace.Server.Exec.From.{
  From, From-bind, From-throw_if, From-read, From-write, From-deferred,
}
use screenspace.Service.Wallpaper.{finalize, publish, approve, reject, finalize_params}
use screenspace.Service.Wallpaper.Video.{
  download_and_probe-Same, generate_and_upload_assets-Same, throw_some-Same,
}

-- One step of the life of a wallpaper, or none.
pub data Moves (s t : String) : Type 0 where
  stays : s ≡ t → Moves s t
  submitted : s ≡ status_pending → t ≡ status_pending_review → Moves s t
  accepted : s ≡ status_pending_review → t ≡ status_approved → Moves s t
  declined : s ≡ status_pending_review → t ≡ status_rejected → Moves s t

-- Every wallpaper is still there, with its uploader, and made at most one step.
abbrev pub Evolves : Database → Database → Type 0
Evolves = Rows Moves

pub Evolves-refl : (d : Database) → Evolves d d
Evolves-refl = Rows-refl Moves (λ s. stays refl)

-- An UPDATE of one row that makes at most one step.
pub update-Evolves :
    (d : Database) (id : ℕ) (f : Wallpaper → Wallpaper)
    → ((w : Wallpaper) → (f w).id ≡ w.id)
    → ((w : Wallpaper) → (f w).uploader_id ≡ w.uploader_id)
    → ((w : Wallpaper) → find_wallpaper id d ≡ some w → Moves w.status (f w).status)
    → Evolves d (update_wallpaper id f d)
update-Evolves = update-Rows Moves (λ s. stays refl)

-- A row that the query returned is the view of a row of the table.
pub row_of_done :
    (id : ℕ) (d : Database) (a : WallpaperRow)
    → get_wallpaper_by_id id d ≡ done a
    → (w : Wallpaper) × (find_wallpaper id d ≡ some w) × (a ≡ to_row w)
unfolding get_wallpaper_by_id
row_of_done id d a h = elim (Option-cases (find_wallpaper id d)) [
  | inl missing ↦ absurd (let h' = rw (missing, get_wallpaper_by_id) at h in cc)
  | inr (w, found) ↦ (w, found, let h' = rw (found, get_wallpaper_by_id) at h in cc)
]

pub row_id :
    (id : ℕ) (d : Database) (a : WallpaperRow) → get_wallpaper_by_id id d ≡ done a → a.id ≡ id
row_id id d a h = let (w, found, e) = row_of_done id d a h in rw e (find_wallpaper-id id d w found)

-- After a test on the status of the row that was read, the row of the table has that status.
status_known :
    (id : ℕ) (d : Database) (a : WallpaperRow) (s : String) (w : Wallpaper)
    → get_wallpaper_by_id id d ≡ done a
    → not (str_eq a.status s) ≡ false
    → find_wallpaper id d ≡ some w
    → w.status ≡ s
status_known id d a s w h t found =
    let (v, found', e) = row_of_done id d a h in ground (arith, eq_iff a.status s)

accept-Evolves :
    (d : Database) (now id : ℕ)
    → ((w : Wallpaper) → find_wallpaper id d ≡ some w → w.status ≡ status_pending_review)
    → Evolves d (update_wallpaper_status now status_approved id d).1
unfolding update_wallpaper_status
accept-Evolves d now id reviewed =
    update-Evolves d id _ (λ w. refl) (λ w. refl) (λ w found. accepted (reviewed w found) refl)

decline-Evolves :
    (d : Database) (now id : ℕ) (reason : Option String)
    → ((w : Wallpaper) → find_wallpaper id d ≡ some w → w.status ≡ status_pending_review)
    → Evolves d (update_wallpaper_status_with_reason now status_rejected reason id d).1
unfolding update_wallpaper_status_with_reason
decline-Evolves d now id reason reviewed =
    update-Evolves d id _ (λ w. refl) (λ w. refl) (λ w found. declined (reviewed w found) refl)

module _ (env : Env) where
  approve-From : (d : Database) (id : ℕ) → From d (Evolves d) (approve env id)
  unfolding approve
  approve-From d id =
      From-read d (Evolves d) (Evolves-refl d) env (get_wallpaper_by_id id) _ _ λ a row.
        From-throw_if d (Evolves d) (Evolves-refl d) _ _ _ λ reviewed.
          From-write d (Evolves d) (Evolves-refl d) env _ _ λ n.
            accept-Evolves d (env.db_now n) id
              λ w found. status_known id d a status_pending_review w row reviewed found

  reject-From :
      (d : Database) (id : ℕ) (reason : String) → From d (Evolves d) (reject env id reason)
  unfolding reject
  reject-From d id reason =
      From-read d (Evolves d) (Evolves-refl d) env (get_wallpaper_by_id id) _ _ λ a row.
        From-throw_if d (Evolves d) (Evolves-refl d) _ _ _ λ reviewed.
          From-write d (Evolves d) (Evolves-refl d) env _ _ λ n.
            decline-Evolves d (env.db_now n) id (some reason)
              λ w found. status_known id d a status_pending_review w row reviewed found

  -- Approving changes the status of no wallpaper but one in review, which becomes approved.
  pub approve-Evolves : (id : ℕ) (w : World) → Evolves w.db (approve env id w).1.db
  approve-Evolves id w = (approve-From w.db id).at w refl

  -- Rejecting changes the status of no wallpaper but one in review, which becomes rejected.
  pub reject-Evolves :
      (id : ℕ) (reason : String) (w : World) → Evolves w.db (reject env id reason w).1.db
  reject-Evolves id reason w = (reject-From w.db id reason).at w refl

submit-Evolves :
    (d : Database) (now id : ℕ) (p : FinalizeParams)
    → p.status ≡ status_pending_review
    → ((w : Wallpaper) → find_wallpaper id d ≡ some w → w.status ≡ status_pending)
    → Evolves d (update_wallpaper_after_finalize now p id d).1
unfolding update_wallpaper_after_finalize
submit-Evolves d now id p review pending = elim (Option-cases (find_wallpaper id d)) [
  | inl missing ↦ rw (missing, update_wallpaper_after_finalize) (Evolves-refl d)
  | inr (v, found) ↦
      rw (found, update_wallpaper_after_finalize)
        (update-Evolves d id _ (λ w. refl) (λ w. refl)
          (λ w same. submitted (pending w same) review))
]

module _ (env : Env) (cfg : Config) where
  publish-From :
      (d : Database) (id : ℕ) (path : String) (info : ProbeResult)
      → ((w : Wallpaper) → find_wallpaper id d ≡ some w → w.status ≡ status_pending)
      → From d (Evolves d) (publish env cfg id path info)
  unfolding publish
  publish-From d id path info pending =
      From-bind d (Evolves d) (Evolves-refl d) _ _ (throw_some-Same env cfg _) λ _.
        From-bind d (Evolves d) (Evolves-refl d) _ _ (generate_and_upload_assets-Same env id path)
          λ keys. From-write d (Evolves d) (Evolves-refl d) env _ _ λ n.
            submit-Evolves d (env.db_now n) id (finalize_params env cfg info keys.0 keys.1) refl
              pending

  finalize-From : (d : Database) (id user_id : ℕ) → From d (Evolves d) (finalize env cfg id user_id)
  unfolding finalize
  finalize-From d id user_id =
      let same_row : ((a : WallpaperRow)
          → get_wallpaper_by_id id d ≡ done a
          → get_wallpaper_by_id a.id d ≡ done a) =
        λ a row. subst (λ i. get_wallpaper_by_id i d ≡ done a) (sym (row_id id d a row)) row in
      From-read d (Evolves d) (Evolves-refl d) env (get_wallpaper_by_id id) _ _ λ a row.
        From-throw_if d (Evolves d) (Evolves-refl d) _ _ _ λ mine.
          From-throw_if d (Evolves d) (Evolves-refl d) _ _ _ λ pending.
            From-bind d (Evolves d) (Evolves-refl d) _ _ (download_and_probe-Same env cfg a.id)
              λ video.
                From-deferred d (Evolves d) _ _ (λ w. refl)
                  (publish-From d a.id video.0 video.1 λ w found.
                    status_known a.id d a status_pending w (same_row a row) pending found)

  -- Finalizing changes the status of no wallpaper but a pending one, which goes to review.
  pub finalize-Evolves :
      (id user_id : ℕ) (w : World) → Evolves w.db (finalize env cfg id user_id w).1.db
  finalize-Evolves id user_id w = (finalize-From w.db id user_id).at w refl
