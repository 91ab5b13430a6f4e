-- ===== src/Routes/Steps.antt =====
-- The server, one request after the other, as a run of the step relation for requests that overlap.
use screenspace.Base.{
  ℕ, String, ◌≡◌, refl, sym, subst, Bool, true, false, not, Option, none, some, List, [], ◌∷◌,
  arith,
}
use screenspace.Apperr.{Error}
use screenspace.Config.{Config}
use screenspace.Db.Models.{Database, done}
use screenspace.Db.Wallpapers.{get_wallpaper_by_id}
use screenspace.Server.Env.{Env, ProbeResult}
use screenspace.Server.World.{World}
use screenspace.Server.Request.{Request}
use screenspace.Server.Exec.{Exec, Result, ok, err, panicked, continue, ◌>>=◌}
use screenspace.Server.Exec.Keeps.{IsPreorder, Keeps}
use screenspace.Server.Exec.From.{Same, From, From-read, From-throw_if, From-write, From-deferred}
use screenspace.Server.Exec.Inversion.{Returns}
use screenspace.Service.Wallpaper.{
  approve, reject, finalize, publish, throw_some, download_and_probe, generate_and_upload_assets,
}
use screenspace.Service.Wallpaper.Video.{download_and_probe-Same, generate_and_upload_assets-Same}
use screenspace.Service.Wallpaper.Lifecycle.{row_id}
use screenspace.Service.Wallpaper.Interleaved.{
  Shared, OtherWrite, created, keyed, counted, edited, registered, banned, promoted, favorited,
  unfavorited, reported, dismissed, approving, rejecting, publishing, commit, FinalizeStep,
  finalize_tested, finalize_prepared, approve_tested, reject_tested, finalizes, committed,
  other_write, Reach, here, next,
}
use screenspace.Service.Wallpaper.Interleaved.Race.{quiet}
use screenspace.Handler.Keeps.Writes.{Steps}
use screenspace.Routes.{Route, serve_all}
use screenspace.Routes.Served.{serve_all-R}

passed : (b : Bool) → not b ≡ false → b ≡ true
passed b h = ground (arith, h)

-- An action that leaves the tables alone, and then another, with what the first has returned.
module _ (d : Database) (P : Database → Type 0) (unchanged : P d) {A B : Type 0} (m : Exec A) where
  continue-returned :
      (f : A → Exec B) (start : World) (r : Result A) (w : World)
      → m start ≡ (r, w)
      → w.db ≡ d
      → ((a : A) (from to : World) → Returns m from a to → From d P (f a))
      → P (continue r f w).1.db
  continue-returned f start (ok a) w ran e kf = (kf a start w ran).at w e
  continue-returned f start (err x) w ran e kf = subst P (sym e) unchanged
  continue-returned f start panicked w ran e kf = subst P (sym e) unchanged

  From-returned :
      (f : A → Exec B)
      → Keeps Same m
      → ((a : A) (from to : World) → Returns m from a to → From d P (f a))
      → From d P (m >>= f)
  unfolding ◌>>=◌
  From-returned f same kf = record {
    at = λ w e. continue-returned f w (m w).0 (m w).1 refl (rw (← same.at w) e) kf;
  }

module _ (env : Env) (cfg : Config) where
  abbrev Runs : Database → Database → Type 0
  Runs d d' = Reach env cfg (quiet d) (quiet d')

  Reach-trans : {s t u : Shared} → Reach env cfg s t → Reach env cfg t u → Reach env cfg s u
  Reach-trans r here = r
  Reach-trans r (next q st) = next (Reach-trans r q) st

  Runs-order : IsPreorder Runs
  Runs-order = record { same = λ d. here; then_also = λ a b c p q. Reach-trans p q }

  -- One query of another request.
  wrote : (d d' : Database) → OtherWrite d d' → Runs d d'
  wrote d d' q = next here (other_write d' q)

  approve-From : (d : Database) (id : ℕ) → From d (Runs d) (approve env id)
  unfolding approve commit
  approve-From d id = From-read d (Runs d) here env (get_wallpaper_by_id id) _ _ λ a row.
      From-throw_if d (Runs d) here _ _ _ λ reviewed. From-write d (Runs d) here env _ _ λ n.
        next (next here (approve_tested id a row (passed _ reviewed)))
          (committed (env.db_now n) [] (approving id) [] refl)

  reject-From : (d : Database) (id : ℕ) (reason : String) → From d (Runs d) (reject env id reason)
  unfolding reject commit
  reject-From d id reason = From-read d (Runs d) here env (get_wallpaper_by_id id) _ _ λ a row.
      From-throw_if d (Runs d) here _ _ _ λ reviewed. From-write d (Runs d) here env _ _ λ n.
        next (next here (reject_tested id reason a row (passed _ reviewed)))
          (committed (env.db_now n) [] (rejecting id reason) [] refl)

  From-throw_some :
      (d : Database) (P : Database → Type 0) (unchanged : P d) {B : Type 0} (o : Option Error)
      (f : Unit {0} → Exec B)
      → (o ≡ none → From d P (f tt))
      → From d P (throw_some env cfg o >>= f)
  unfolding ◌>>=◌
  From-throw_some d P unchanged none f kf = kf refl
  From-throw_some d P unchanged (some x) f kf = record { at = λ w e. subst P (sym e) unchanged }

  -- The part of `Finalize` behind its tests.
  publish-From :
      (d : Database) (id : ℕ) (path : String) (info : ProbeResult) (from to : World)
      → FinalizeStep env cfg (quiet d) (record (quiet d) { preparing = id ∷ [] })
      → Returns (download_and_probe env cfg id) from (path, info) to
      → From d (Runs d) (publish env cfg id path info)
  unfolding publish commit
  publish-From d id path info from to tested downloaded =
      From-throw_some d (Runs d) here _ _ λ valid.
        From-returned d (Runs d) here (generate_and_upload_assets env id path) _
          (generate_and_upload_assets-Same env id path)
          λ keys resumed stored uploaded. From-write d (Runs d) here env _ _ λ n.
            next
              (next (next here (finalizes _ tested)) (
                finalizes _ (
                  finalize_prepared [] id [] info keys.0 keys.1 refl (record {
                    path = path;
                    start = from;
                    probed = to;
                    resumed = resumed;
                    stored = stored;
                    downloaded = downloaded;
                    valid = valid;
                    uploaded = uploaded;
                  }))))
              (committed (env.db_now n) [] (publishing id info keys.0 keys.1) [] refl)

  finalize-From : (d : Database) (id user_id : ℕ) → From d (Runs d) (finalize env cfg id user_id)
  unfolding finalize
  finalize-From d id user_id = From-read d (Runs d) here env (get_wallpaper_by_id id) _ _ λ a row.
      From-throw_if d (Runs d) here _ _ _ λ mine. From-throw_if d (Runs d) here _ _ _ λ pending.
        From-returned d (Runs d) here (download_and_probe env cfg a.id) _
          (download_and_probe-Same env cfg a.id)
          λ video from to downloaded.
            From-deferred d (Runs d) _ _ (λ w. refl)
              (publish-From d a.id video.0 video.1 from to
                (finalize_tested a.id user_id a
                  (subst (λ i. get_wallpaper_by_id i d ≡ done a) (sym (row_id id d a row)) row)
                  (passed _ mine) (passed _ pending))
                downloaded)

  Runs-steps : Steps env cfg Runs
  Runs-steps = record {
    user = record {
      created = λ id now title uploader key category d.
          wrote d _ (created id now title uploader key category);
      keyed = λ now key id d. wrote d _ (keyed now key id);
      counted = λ id d. wrote d _ (counted id);
      registered = λ id now email hash role d. wrote d _ (registered id now email hash role);
      favorited = λ now u p d. wrote d _ (favorited now u p);
      unfavorited = λ u p d. wrote d _ (unfavorited u p);
      reported = λ id now p u reason d. wrote d _ (reported id now p u reason);
      finalized = λ id user_id. record { at = λ w. (finalize-From w.db id user_id).at w refl };
    };
    admin = record {
      edited = λ now title category tags id d. wrote d _ (edited now title category tags id);
      banned = λ b id d. wrote d _ (banned b id);
      promoted = λ role id d. wrote d _ (promoted role id);
      dismissed = λ id d. wrote d _ (dismissed id);
      approved = λ id. record { at = λ w. (approve-From w.db id).at w refl };
      rejected = λ id reason. record { at = λ w. (reject-From w.db id reason).at w refl };
    };
  }

  -- Whatever requests the server answers, one after the other, and wherever they fail, the tables
  -- change by steps of the relation for overlapping requests, from a state in which no request is on
  -- its way to another such state: the relation has all that the handlers of the server do.
  pub serve_all-Reach :
      (start_time : ℕ) (requests : List (Route × Request)) (w : World)
      → Reach env cfg (quiet w.db) (quiet (serve_all env cfg start_time requests w).db)
  serve_all-Reach t requests w = serve_all-R env cfg t Runs-order Runs-steps requests w
