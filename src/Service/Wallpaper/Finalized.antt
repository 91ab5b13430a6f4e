-- ===== src/Service/Wallpaper/Finalized.antt =====
-- What a successful `Finalize` has established.
use Prim.Native.String.{◌++◌ as append}
use screenspace.Strconv.{show_int}
use screenspace.Base.{
  int32, ℕ, suc, String, ◌≡◌, refl, sym, ap, subst, ◌∙◌, Bool, false, not, Option, none, some, ◌∷◌,
  ◌==◌, str_eq, arith, eq_iff, ◌⊎◌, ◌≤ℤ◌,
}
use screenspace.Types.{status_pending}
use screenspace.Apperr.{Error}
use screenspace.Config.{Config}
use screenspace.Float64.{float_gt}
use screenspace.Db.Models.{Wallpaper, WallpaperRow, Database, done}
use screenspace.Db.Wallpapers.{
  find_wallpaper, to_row, FinalizeParams, finalize_wallpaper, get_wallpaper_by_id,
  update_wallpaper_after_finalize,
}
use screenspace.Db.Wallpapers.Laws.{find-map_if_self}
use screenspace.Server.Env.{Env, ProbeResult}
use screenspace.Server.World.{World}
use screenspace.Server.Exec.{Exec, ◌>>=◌, call}
use screenspace.Server.Exec.Inversion.{
  Returns, pure-ok, bind-ok, bind-Same-ok, throw_if-ok, query-ok, write-ok, deferred-ok,
}
use screenspace.Service.Wallpaper.{
  object_key, finalize, publish, validate_video, throw_some, finalize_params, download_and_probe,
  generate_and_upload_assets, upload, render, probe_file,
}
use screenspace.Service.Wallpaper.Video.{download_and_probe-Same, generate_and_upload_assets-Same}
use screenspace.Service.Wallpaper.Lifecycle.{row_of_done, row_id}

-- The constraints on a video.
pub record IsAccepted (cfg : Config) (info : ProbeResult) : Type 0 where
  pub size : info.size ≤ℤ cfg.max_file_size
  pub duration : float_gt info.duration cfg.max_duration ≡ false
  pub height : cfg.min_height ≤ℤ info.height
  pub codec : (info.format ≡ "h264") ⊎ (info.format ≡ "h265")

module _ (env : Env) (cfg : Config) where
  -- A video that passes the validation meets every constraint.
  pub validate_video-IsAccepted :
      (info : ProbeResult) → validate_video env cfg info ≡ none → IsAccepted cfg info
  unfolding validate_video
  validate_video-IsAccepted info h =
      ground (arith, eq_iff info.format "h264", eq_iff info.format "h265")

  throw_some-ok :
      (o : Option Error) {B : Type 0} (f : Unit {0} → Exec B) (w w' : World) (b : B)
      → Returns (throw_some env cfg o >>= f) w b w'
      → (o ≡ none) × Returns (f tt) w b w'
  unfolding ◌>>=◌
  throw_some-ok none f w w' b h = (refl, h)
  throw_some-ok (some e) f w w' b h = absurd (cc)

  update-ok :
      (now : ℕ) (p : FinalizeParams) (id : ℕ) (d : Database) (v : Wallpaper) (row : WallpaperRow)
      → find_wallpaper id d ≡ some v
      → (update_wallpaper_after_finalize now p id d).0 ≡ done row
      → (row ≡ to_row (finalize_wallpaper now p v))
        × (find_wallpaper id (update_wallpaper_after_finalize now p id d).1
            ≡ some (finalize_wallpaper now p v))
  unfolding update_wallpaper_after_finalize
  update-ok now p id d v row found h =
      let h' = rw (found, update_wallpaper_after_finalize) at h in
      (
        cc,
        rw (found, update_wallpaper_after_finalize)
            (find-map_if_self id _ (λ x. refl) d.wallpapers found),
      )

module _ (env : Env) where
  upload-ok :
      (key t a b : String) (w w' : World) (u : Unit {0})
      → Returns (upload env key t a b) w u w'
      → w'.objects ≡ key ∷ w.objects
  unfolding upload call ◌>>=◌
  upload-ok key t a b w w' u h = ground arith

  render-ok :
      (run : ℕ → String → Bool) (path label : String) (w w' : World) (u : Unit {0})
      → Returns (render env run path label) w u w'
      → w'.objects ≡ w.objects
  unfolding render call ◌>>=◌
  render-ok run path label w w' u h = ground arith

  -- The assets are in the store under the keys that are returned.
  assets-ok :
      (id : ℕ) (path : String) (w w' : World) (keys : String × String)
      → Returns (generate_and_upload_assets env id path) w keys w'
      → (keys ≡ (object_key env id "thumbnail.jpg", object_key env id "preview.mp4"))
        × (w'.objects ≡ keys.1 ∷ keys.0 ∷ w.objects)
  unfolding generate_and_upload_assets
  assets-ok id path w w' keys h =
      let (_, w1, r1, h1) = bind-ok _ _ w w' keys h in
      let (v1, d1, e1) = deferred-ok _ _ w1 w' keys h1 in
      let (_, w2, r2, h2) = bind-ok _ _ w1 v1 keys d1 in
      let (v2, d2, e2) = deferred-ok _ _ w2 v1 keys h2 in
      let (_, w3, r3, h3) = bind-ok _ _ w2 v2 keys d2 in
      let (_, w4, r4, h4) = bind-ok _ _ w3 v2 keys h3 in
      let o1 = render-ok _ _ _ w w1 _ r1 in
      let o2 = render-ok _ _ _ w1 w2 _ r2 in
      let o3 = upload-ok _ _ _ _ w2 w3 _ r3 in
      let o4 = upload-ok _ _ _ _ w3 w4 _ r4 in
      let (is_keys, is_last) = pure-ok _ keys w4 v2 h4 in
      let objects = λ (x : World). x.objects in
      let end1 : (w'.objects ≡ v1.objects) = ap objects e1 in
      let end2 : (v1.objects ≡ v2.objects) = ap objects e2 in
      let end3 : (v2.objects ≡ w4.objects) = ap objects is_last in (is_keys, rw is_keys (cc))

-- The prober found this in a file.
abbrev pub Probed : Env → ProbeResult → Type 0
Probed env info = (n : ℕ) × (path : String) × (env.probe n path ≡ some info)

module _ (env : Env) (cfg : Config) where
  download-ok :
      (id : ℕ) (w w' : World) (p : String × ProbeResult)
      → Returns (download_and_probe env cfg id) w p w'
      → (w'.objects ≡ w.objects) × Probed env p.1
  unfolding download_and_probe probe_file call ◌>>=◌
  download-ok id w w' p h = (ground arith, (suc (suc (suc w.calls)), p.0, ground arith))

  -- The row of a wallpaper that was finalized at a time: in review, with what the prober found; the
  -- dimensions cut to 32 bits.
  abbrev pub finalized_row : ℕ → ProbeResult → ℕ → Wallpaper → Wallpaper
  finalized_row id info now v = record v {
    width = int32 info.width;
    height = int32 info.height;
    duration = info.duration;
    file_size = info.size;
    format = info.format;
    resolution = append (show_int info.width) (append "x" (show_int info.height));
    thumbnail_key = append "wallpapers/" (append (env.uuid_string id) "/thumbnail.jpg");
    preview_key = append "wallpapers/" (append (env.uuid_string id) "/preview.mp4");
    status = "pending_review";
    updated_at = now;
  }

  -- What `Finalize` has done for the wallpaper that it returns.
  pub record IsFinalized (id user_id : ℕ) (w w' : World) (row : WallpaperRow) (v : Wallpaper)
      (info : ProbeResult) (now : ℕ) : Type 0 where
    pub was_there : find_wallpaper id w.db ≡ some v
    pub was_mine : v.uploader_id ≡ user_id
    pub was_pending : v.status ≡ status_pending
    pub probed : Probed env info
    pub accepted : IsAccepted cfg info
    pub stored : find_wallpaper id w'.db ≡ some (finalized_row id info now v)
    pub returned : row ≡ to_row (finalized_row id info now v)
    pub uploaded :
        w'.objects ≡ object_key env id "preview.mp4" ∷ object_key env id "thumbnail.jpg" ∷ w.objects

  publish_ok :
      (id user_id : ℕ) (path : String) (info : ProbeResult) (w w' : World) (row : WallpaperRow)
      (v : Wallpaper)
      → find_wallpaper id w.db ≡ some v
      → v.uploader_id ≡ user_id
      → v.status ≡ status_pending
      → Probed env info
      → Returns (publish env cfg id path info) w row w'
      → (now : ℕ) × IsFinalized id user_id w w' row v info now
  unfolding publish
  publish_ok id user_id path info w w' row v found mine pending probed h =
      let (valid, h1) = throw_some-ok env cfg _ _ w w' row h in
      let (keys, u, made, same, h2) =
        bind-Same-ok _ _ w w' row (generate_and_upload_assets-Same env id path) h1 in
      let (is_keys, objects) = assets-ok env id path w u keys made in
      let (is_done, tables, same_objects) = write-ok env _ _ u w' row h2 in
      let now = env.db_now u.calls in
      let params : (String × String → FinalizeParams) = λ k. finalize_params env cfg info k.0 k.1 in
      let found' : (find_wallpaper id u.db ≡ some v) = ap (find_wallpaper id) same ∙ found in
      let (returned, stored) = update-ok env cfg now (params keys) id u.db v row found' is_done in
      (
        now,
        record {
          was_there = found;
          was_mine = mine;
          was_pending = pending;
          probed = probed;
          accepted = validate_video-IsAccepted env cfg info valid;
          stored =
              subst (λ k. find_wallpaper id w'.db ≡ some (finalize_wallpaper now (params k) v))
                is_keys (ap (find_wallpaper id) tables ∙ stored);
          returned =
              subst (λ k. row ≡ to_row (finalize_wallpaper now (params k) v)) is_keys returned;
          uploaded = same_objects ∙ subst (λ k. u.objects ≡ k.1 ∷ k.0 ∷ w.objects) is_keys objects;
        },
      )

  -- What was done by a later part of the action, seen from its start and its end.
  seen_from :
      (id user_id : ℕ) (w u u' w' : World) (row : WallpaperRow) (v : Wallpaper) (info : ProbeResult)
      (now : ℕ)
      → u.db ≡ w.db
      → u.objects ≡ w.objects
      → w'.db ≡ u'.db
      → w'.objects ≡ u'.objects
      → IsFinalized id user_id u u' row v info now
      → IsFinalized id user_id w w' row v info now
  seen_from id user_id w u u' w' row v info now db objects db' objects' k = record {
    was_there = rw (← db) k.was_there;
    was_mine = k.was_mine;
    was_pending = k.was_pending;
    probed = k.probed;
    accepted = k.accepted;
    stored = rw db' k.stored;
    returned = k.returned;
    uploaded = rw (objects', ← objects) k.uploaded;
  }

  tests_known :
      (a : WallpaperRow) (v : Wallpaper) (user_id : ℕ)
      → a ≡ to_row v
      → not (a.uploader_id == user_id) ≡ false
      → not (str_eq a.status status_pending) ≡ false
      → (v.uploader_id ≡ user_id) × (v.status ≡ status_pending)
  tests_known a v user_id view mine pending = ground (arith, eq_iff a.status status_pending)

  -- When `Finalize` succeeds, the wallpaper was there, pending, and the user's own; the video met
  -- every constraint; its two assets are in the store, and the table and the answer hold the
  -- wallpaper in review with what the prober found.
  pub finalize_ok :
      (id user_id : ℕ) (w w' : World) (row : WallpaperRow)
      → Returns (finalize env cfg id user_id) w row w'
      → (v : Wallpaper) × (info : ProbeResult) × (now : ℕ) × IsFinalized id user_id w w' row v info
          now
  unfolding finalize
  finalize_ok id user_id w w' row h =
      let (a, w1, read, s1, o1, h1) = query-ok env (get_wallpaper_by_id id) _ _ w w' row h in
      let (mine, h2) = throw_if-ok _ _ _ w1 w' row h1 in
      let (pending, h3) = throw_if-ok _ _ _ w1 w' row h2 in
      let (video, w2, got, s2, h4) =
        bind-Same-ok _ _ w1 w' row (download_and_probe-Same env cfg a.id) h3 in
      let (w3, published, removed) = deferred-ok _ _ w2 w' row h4 in
      let (v, found, view) = row_of_done id w.db a read in
      let same : (w2.db ≡ w.db) = s2 ∙ s1 in
      let here : (find_wallpaper a.id w2.db ≡ some v) =
        ap (find_wallpaper a.id) same
        ∙ subst (λ i. find_wallpaper i w.db ≡ some v) (sym (row_id id w.db a read)) found in
      let owner : (v.uploader_id ≡ user_id) = (tests_known a v user_id view mine pending).0 in
      let status : (v.status ≡ status_pending) = (tests_known a v user_id view mine pending).1 in
      let (now, k) =
        publish_ok a.id user_id video.0 video.1 w2 w3 row v here owner status
          (download-ok a.id w1 w2 video got).1 published in
      let objects = (download-ok a.id w1 w2 video got).0 ∙ o1 in
      let seen =
        seen_from a.id user_id w w2 w3 w' row v video.1 now same objects
          (ap (λ (x : World). x.db) removed) (ap (λ (x : World). x.objects) removed) k in
      (
        v,
        video.1,
        now,
        subst (λ i. IsFinalized i user_id w w' row v video.1 now) (row_id id w.db a read) seen,
      )
