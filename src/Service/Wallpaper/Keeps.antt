-- ===== src/Service/Wallpaper/Keeps.antt =====
-- What the three steps of the review keep, when the queries that they end with keep it.
use screenspace.Base.{ℕ, String, ◌≡◌, refl, Option, some}
use screenspace.Apperr.{Error}
use screenspace.Types.{status_pending_review, status_approved, status_rejected}
use screenspace.Config.{Config}
use screenspace.Db.Models.{Database}
use screenspace.Db.Wallpapers.{
  FinalizeParams, update_wallpaper_status, update_wallpaper_status_with_reason,
  update_wallpaper_after_finalize,
}
use screenspace.Server.Env.{Env, ProbeResult}
use screenspace.Server.Exec.{write}
use screenspace.Server.Exec.Keeps.{IsPreorder, Keeps, Keeps-write, keeps_rules}
use screenspace.Server.Exec.From.{Keeps-of-Same}
use screenspace.Service.Wallpaper.{
  approve, reject, finalize, finalize_params, publish, throw_some, download_and_probe,
  generate_and_upload_assets,
}
use screenspace.Service.Wallpaper.Video.{
  download_and_probe-Same, generate_and_upload_assets-Same, throw_some-Same,
}

module _ (env : Env) (cfg : Config) {R : Database → Database → Type 0} (order : IsPreorder R) where
  module _
      (step : (now : ℕ) (status : String) (id : ℕ) (d : Database)
        → R d (update_wallpaper_status now status id d).1) where
    approved :
        (id : ℕ)
        → Keeps R (write env (λ n. update_wallpaper_status (env.db_now n) status_approved id))
    approved id = Keeps-write order env _ λ n d. step (env.db_now n) status_approved id d

    pub approve-Keeps : (id : ℕ) → Keeps R (approve env id)
    unfolding approve
    approve-Keeps id = search (keeps_rules, order, approved) depth 14

  module _
      (step : (now : ℕ) (status : String) (reason : Option String) (id : ℕ) (d : Database)
        → R d (update_wallpaper_status_with_reason now status reason id d).1) where
    rejected :
        (id : ℕ) (reason : String)
        → Keeps R (
            write env (λ n.
              update_wallpaper_status_with_reason (env.db_now n) status_rejected (some reason) id))
    rejected id reason =
        Keeps-write order env _ λ n d. step (env.db_now n) status_rejected (some reason) id d

    pub reject-Keeps : (id : ℕ) (reason : String) → Keeps R (reject env id reason)
    unfolding reject
    reject-Keeps id reason = search (keeps_rules, order, rejected) depth 14

  module _
      (step : (now : ℕ) (p : FinalizeParams) (id : ℕ) (d : Database)
        → p.status ≡ status_pending_review
        → R d (update_wallpaper_after_finalize now p id d).1) where
    finalized :
        (info : ProbeResult) (a b : String) (id : ℕ)
        → Keeps R (
            write env (λ n.
              update_wallpaper_after_finalize (env.db_now n) (finalize_params env cfg info a b) id))
    finalized info a b id =
        Keeps-write order env _
          λ n d. step (env.db_now n) (finalize_params env cfg info a b) id d refl

    validated : (o : Option Error) → Keeps R (throw_some env cfg o)
    validated o = Keeps-of-Same order _ (throw_some-Same env cfg o)

    assets : (id : ℕ) (path : String) → Keeps R (generate_and_upload_assets env id path)
    assets id path = Keeps-of-Same order _ (generate_and_upload_assets-Same env id path)

    downloaded : (id : ℕ) → Keeps R (download_and_probe env cfg id)
    downloaded id = Keeps-of-Same order _ (download_and_probe-Same env cfg id)

    publish-Keeps :
        (id : ℕ) (path : String) (info : ProbeResult) → Keeps R (publish env cfg id path info)
    unfolding publish
    publish-Keeps id path info = search (keeps_rules, order, validated, assets, finalized) depth 14

    pub finalize-Keeps : (id user_id : ℕ) → Keeps R (finalize env cfg id user_id)
    unfolding finalize
    finalize-Keeps id user_id = search (keeps_rules, order, downloaded, publish-Keeps) depth 16
