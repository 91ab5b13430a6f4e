-- ===== src/Service/Report/Accepted.antt =====
-- What a report that `Create` accepted has met, and what it stores.
use Prim.Native.String.{len}
use screenspace.Base.{
  ℕ, String, ◌≡◌, ◌≢◌, refl, true, false, ◌&&◌, [], ◌∷◌, ◌++◌, any, pos, ◌≤ℤ◌, arith, eq_iff,
  Bool-cases, inl, inr,
}
use screenspace.Config.{Config}
use screenspace.Db.Models.{Report, Database, done}
use screenspace.Db.Users.{user_id_is}
use screenspace.Db.Wallpapers.{wallpaper_id_is}
use screenspace.Db.Reports.{create_report, new_report, report_id_is}
use screenspace.Server.Env.{Env}
use screenspace.Server.World.{World}
use screenspace.Server.Exec.Inversion.{Returns, throw_if-ok, write-ok}
use screenspace.Service.Report.{create}

-- A report on a wallpaper, by a user, with a reason.
pub record IsCreated (cfg : Config) (wallpaper_id reporter_id : ℕ) (reason : String)
    (d d' : Database) (report : Report) : Type 0 where
  pub given : reason ≢ ""
  pub short : pos (len reason) ≤ℤ cfg.max_report_length
  pub wallpaper : any (wallpaper_id_is wallpaper_id) d.wallpapers ≡ true
  pub reporter : any (user_id_is reporter_id) d.users ≡ true
  pub fresh : any (report_id_is report.id) d.reports ≡ false
  pub of_wallpaper : report.wallpaper_id ≡ wallpaper_id
  pub of_reporter : report.reporter_id ≡ reporter_id
  pub with_reason : report.reason ≡ reason
  pub pending : report.status ≡ "pending"
  pub stored : d'.reports ≡ d.reports ++ report ∷ []

inserted :
    (id now p u : ℕ) (reason : String) (d : Database) (report : Report)
    → (create_report id now p u reason d).0 ≡ done report
    → (any (wallpaper_id_is p) d.wallpapers ≡ true)
      × (any (user_id_is u) d.users ≡ true)
      × (any (report_id_is id) d.reports ≡ false)
      × (report ≡ new_report id now p u reason)
      × ((create_report id now p u reason d).1.reports
          ≡ d.reports ++ new_report id now p u reason ∷ [])
unfolding create_report
inserted id now p u reason d report h = elim (Bool-cases (any (report_id_is id) d.reports)) [
  | inl old ↦ absurd (let h' = rw old at h in cc)
  | inr new ↦
      elim (Bool-cases (any (wallpaper_id_is p) d.wallpapers && any (user_id_is u) d.users)) [
        | inl both ↦
            let h' = rw (new, both) at h in
            (ground (arith, both), ground (arith, both), new, cc, rw (new, both) refl)
        | inr missing ↦ absurd (let h' = rw (new, missing) at h in cc)
      ]
]

-- When `Create` succeeds, the reason is not empty and has no more bytes than the limit, and the
-- wallpaper and the reporter are there; the report that is answered is pending, of that reporter on
-- that wallpaper with that reason, under an id that no report had; and exactly it was added to the
-- reports.
pub create_ok :
    (env : Env) (cfg : Config) (wallpaper_id reporter_id : ℕ) (reason : String) (w w' : World)
    → (report : Report) → Returns (create env cfg wallpaper_id reporter_id reason) w report w'
    → IsCreated cfg wallpaper_id reporter_id reason w.db w'.db report
unfolding create
create_ok env cfg p u reason w w' report h =
    let (given, h1) = throw_if-ok _ _ _ w w' report h in
    let (short, h2) = throw_if-ok _ _ _ w w' report h1 in
    let (is_done, tables, objects) = write-ok env _ _ w w' report h2 in
    let (wallpaper, reporter, fresh, answered, stored) =
      inserted (env.new_uuid w.calls) (env.db_now w.calls) p u reason w.db report is_done in
    record {
      given = λ e. ground (arith, eq_iff reason "", given, e);
      short = ground (arith, short);
      wallpaper = wallpaper;
      reporter = reporter;
      fresh = rw answered fresh;
      of_wallpaper = rw answered refl;
      of_reporter = rw answered refl;
      with_reason = rw answered refl;
      pending = rw answered refl;
      stored = rw (tables, answered) stored;
    }
