-- ===== src/Service/Wallpaper/Interleaved/Race.antt =====
-- Two requests of `Finalize` that overlap with an `Approve`.
use screenspace.Base.{ℕ, String, ◌≡◌, refl, true, some, [], ◌∷◌, ==_refl, str_eq}
use screenspace.Types.{status_pending, status_pending_review, status_approved}
use screenspace.Config.{Config}
use screenspace.Db.Models.{Wallpaper, Database, done}
use screenspace.Db.Wallpapers.{
  find_wallpaper, to_row, finalize_wallpaper, update_wallpaper, get_wallpaper_by_id,
  update_wallpaper_status, update_wallpaper_after_finalize,
}
use screenspace.Db.Wallpapers.Laws.{find-map_if_self}
use screenspace.Server.Env.{Env, ProbeResult}
use screenspace.Service.Wallpaper.{finalize_params}
use screenspace.Service.Wallpaper.Interleaved.{
  approving, publishing, Shared, Prepared, commit, finalize_tested, finalize_prepared, finalizes,
  approve_tested, committed, Reach, here, next,
}

read_done :
    (id : ℕ) (d : Database) (v : Wallpaper)
    → find_wallpaper id d ≡ some v
    → get_wallpaper_by_id id d ≡ done (to_row v)
unfolding get_wallpaper_by_id
read_done id d v found = rw (found, get_wallpaper_by_id)

module _ (env : Env) (cfg : Config) (now id : ℕ) (d : Database) (v : Wallpaper)
    (found : find_wallpaper id d ≡ some v) where
  find-approving :
      find_wallpaper id (commit env cfg now (approving id) d)
      ≡ some (record v { status = status_approved; updated_at = now })
  unfolding commit update_wallpaper_status update_wallpaper
  find-approving = find-map_if_self id _ (λ w. refl) d.wallpapers found

  find-publishing :
      (info : ProbeResult) (a b : String)
      → find_wallpaper id (commit env cfg now (publishing id info a b) d)
        ≡ some (finalize_wallpaper now (finalize_params env cfg info a b) v)
  unfolding commit update_wallpaper_after_finalize update_wallpaper
  find-publishing info a b =
      rw (found, commit, update_wallpaper_after_finalize)
        (find-map_if_self id _ (λ w. refl) d.wallpapers found)

abbrev pub HasStatus : ℕ → String → Database → Type 0
HasStatus id s d = (w : Wallpaper) × (find_wallpaper id d ≡ some w) × (w.status ≡ s)

abbrev pub quiet : Database → Shared
quiet d = record { db = d; preparing = []; underway = [] }

module _ (env : Env) (cfg : Config) (info : ProbeResult) (a b : String) (id : ℕ) where
  -- The owner finalizes twice before the first UPDATE, and an admin approves before the second.
  abbrev submitted_once : ℕ → Database → Shared
  submitted_once now d = record {
    db = commit env cfg now (publishing id info a b) d;
    preparing = [];
    underway = publishing id info a b ∷ [];
  }

  abbrev then_approved : ℕ → Database → Shared
  then_approved now d = record (submitted_once now d) {
    db = commit env cfg now (approving id) (submitted_once now d).db;
  }

  abbrev then_reopened : ℕ → Database → Shared
  then_reopened now d = quiet (commit env cfg now (publishing id info a b) (then_approved now d).db)

  -- Both requests have passed their test before either is prepared.
  submitted_once-Reach :
      (now : ℕ) (d : Database) (v : Wallpaper)
      → Prepared env cfg id info a b
      → find_wallpaper id d ≡ some v
      → v.status ≡ status_pending
      → Reach env cfg (quiet d) (submitted_once now d)
  submitted_once-Reach now d v made found pending =
      let row = read_done id d v found in
      let is_pending : str_eq v.status status_pending ≡ true = rw pending refl in
      let p = publishing id info a b in
      next
        (next
          (next
            (next
              (next here (
                finalizes _ (
                  finalize_tested id v.uploader_id (to_row v) row (==_refl v.uploader_id)
                    is_pending)))
              (finalizes _ (
                finalize_tested id v.uploader_id (to_row v) row (==_refl v.uploader_id)
                  is_pending)))
            (finalizes _ (finalize_prepared [] id (id ∷ []) info a b refl made)))
          (finalizes _ (finalize_prepared [] id [] info a b refl made)))
        (committed now [] p (p ∷ []) refl)

  -- Where the video of a pending wallpaper can be prepared, the wallpaper can be approved and go
  -- back to pending_review afterwards, from a state in which no request is on its way: its owner
  -- finalizes it twice at the same time, and an admin approves it between the two UPDATEs.
  pub approved-reopens :
      (now : ℕ) (d : Database) (v : Wallpaper)
      → Prepared env cfg id info a b
      → find_wallpaper id d ≡ some v
      → v.status ≡ status_pending
      → (s : Shared) × (t : Shared) × Reach env cfg (quiet d) s
        × HasStatus id status_approved s.db
        × Reach env cfg s t
        × HasStatus id status_pending_review t.db
  approved-reopens now d v made found pending =
      let once = find-publishing env cfg now id d v found info a b in
      let v1 = finalize_wallpaper now (finalize_params env cfg info a b) v in
      let d1 = (submitted_once now d).db in
      let approved = find-approving env cfg now id d1 v1 once in
      let v2 : Wallpaper = record v1 { status = status_approved; updated_at = now } in
      let again = find-publishing env cfg now id (then_approved now d).db v2 approved info a b in
      let first = submitted_once-Reach now d v made found pending in
      let tested = next first (approve_tested id (to_row v1) (read_done id d1 v1 once) refl) in
      (
        then_approved now d,
        then_reopened now d,
        next tested (committed now [] (approving id) (publishing id info a b ∷ []) refl),
        (v2, approved, refl),
        next here (committed now [] (publishing id info a b) [] refl),
        (finalize_wallpaper now (finalize_params env cfg info a b) v2, again, refl),
      )
