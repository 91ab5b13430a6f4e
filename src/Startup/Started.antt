-- ===== src/Startup/Started.antt =====
-- What is known of a server that has started.
use screenspace.Base.{
  ℕ, suc, ◌*◌, ◌≢◌, String, ◌≡◌, refl, ap, ◌∙◌, Option, none, some, List, [], ◌∷◌, arith, ℤ,
}
use screenspace.Config.{Config, validate, load}
use screenspace.Config.Laws.{IsValid, validate_iff}
use screenspace.Storage.{S3Library, S3Store, new_s3_store}
use screenspace.Server.World.{World, Limiters}
use screenspace.Db.Models.{Database}
use screenspace.Middleware.RateLimit.{RateLimiter}
use screenspace.Server.Exec.{◌>>=◌, call}
use screenspace.Server.Exec.Inversion.{Returns, bind-ok, pure-ok, or_throw-ok, throw_if-ok}
use screenspace.Middleware.BannedCache.{new_banned_cache}
use screenspace.Startup.{
  Library, Migration, migrated, no_change, failed_up, open_db, run_migrations, migrate_up,
  migration_result, config_or_exit, first_error, Server, start, new_limiters,
}

call-ok :
    {A : Type 0} (f : ℕ → A) (w w' : World) (a : A)
    → Returns (call f) w a w'
    → (w'.calls ≡ suc w.calls) × (w'.db ≡ w.db)
unfolding call
call-ok f w w' a h = (ground arith, ground arith)

module _ (lib : Library) (s3 : S3Library) where
  -- A limiter without entries, with its limit and its window in seconds.
  abbrev IsLimiter : RateLimiter → ℤ → ℕ → Type 0
  IsLimiter l limit seconds = (l.entries ≡ []) × (l.max ≡ limit) × (l.window ≡ seconds * 1000000000)

  pub record AreLimiters (cfg : Config) (l : Limiters) : Type 0 where
    pub public_limit : IsLimiter l.public_limiter cfg.public_rate_limit 60
    pub auth_limit : IsLimiter l.auth_limiter cfg.auth_rate_limit 60
    pub user_limit : IsLimiter l.user_limiter cfg.user_rate_limit 60
    pub upload_limit : IsLimiter l.upload_limiter cfg.upload_rate_limit 86400
    pub download_limit : IsLimiter l.download_limiter cfg.download_rate_limit 3600

  -- The configuration is the one that was read, and valid; the store is of its bucket; the cache is
  -- new, and so are the limiters, with its limits; the tables are those that the migrations left.
  pub record IsStarted (cfg : Config) (s : Server) (w w' : World) : Type 0 where
    pub config : s.cfg ≡ cfg
    pub valid : IsValid cfg
    pub endpoint : s.store.endpoint ≡ cfg.s3_endpoint
    pub bucket : s.store.bucket ≡ cfg.s3_bucket
    pub cache : w'.banned_cache ≡ []
    pub limiters : AreLimiters cfg w'.limiters
    pub migrated_well : (lib.up (suc (suc (suc w.calls))) w.db).0 ≢ failed_up
    pub tables : w'.db ≡ (lib.up (suc (suc (suc w.calls))) w.db).1

  config_or_exit-World :
      (o : Option String) (w w' : World) (u : Unit {0}) → Returns (config_or_exit o) w u w' → w' ≡ w
  config_or_exit-World none w w' u h = cc
  config_or_exit-World (some e) w w' u h = absurd (cc)

  open_db-calls :
      (cfg : Config) (w w' : World) (u : Unit {0})
      → Returns (open_db lib cfg) w u w'
      → (w'.calls ≡ suc (suc w.calls)) × (w'.db ≡ w.db)
  unfolding open_db call ◌>>=◌
  open_db-calls cfg w w' u h = (ground arith, ground arith)

  migration_result-ok :
      (m : Migration) (w w' : World) (u : Unit {0})
      → Returns (migration_result lib m) w u w'
      → (m ≢ failed_up) × (w' ≡ w)
  migration_result-ok migrated w w' u h = (λ e. absurd (cc), cc)
  migration_result-ok no_change w w' u h = (λ e. absurd (cc), cc)
  migration_result-ok failed_up w w' u h = absurd (cc)

  migrate_up-ok :
      (w w' : World) (m : Migration)
      → Returns (migrate_up lib) w m w'
      → (m ≡ (lib.up w.calls w.db).0) × (w'.db ≡ (lib.up w.calls w.db).1)
  unfolding migrate_up
  migrate_up-ok w w' m h = (cc, ground arith)

  run_migrations-ok :
      (url : String) (w w' : World) (u : Unit {0})
      → Returns (run_migrations lib url) w u w'
      → ((lib.up (suc w.calls) w.db).0 ≢ failed_up) × (w'.db ≡ (lib.up (suc w.calls) w.db).1)
  unfolding run_migrations
  run_migrations-ok url w w' u h =
      let (source, h1) = throw_if-ok _ _ _ w w' u h in
      let (made, w1, asked, h2) = bind-ok _ _ w w' u h1 in
      let (opened, h3) = throw_if-ok _ _ _ w1 w' u h2 in
      let (m, w2, ran, h4) = bind-ok _ _ w1 w' u h3 in
      let (is_m, tables) = migrate_up-ok w1 w2 m ran in
      let (well, same) = migration_result-ok m w2 w' u h4 in
      let (one_call, before) = call-ok _ w w1 made asked in
      (λ e. well (is_m ∙ rw (one_call, before) e), rw (same, tables, one_call, before) refl)

  no_errors :
      (errors : List String) (w w' : World) (u : Unit {0})
      → Returns (config_or_exit (first_error errors)) w u w'
      → errors ≡ []
  no_errors [] w w' u h = refl
  no_errors (e ∷ es) w w' u h = absurd (cc)

  store-of :
      (cfg : Config) (store : S3Store)
      → new_s3_store s3 cfg.s3_endpoint cfg.s3_bucket cfg.s3_access_key cfg.s3_secret_key
        ≡ some store
      → (store.endpoint ≡ cfg.s3_endpoint) × (store.bucket ≡ cfg.s3_bucket)
  unfolding new_s3_store
  store-of cfg store h = ground arith

  started :
      (cfg : Config) (w w' : World) (s : Server)
      → Returns (start lib s3 (cfg, validate cfg)) w s w'
      → IsStarted cfg s w w'
  unfolding start call
  started cfg w w' s h =
      let (u1, w1, e1, h1) = bind-ok _ _ w w' s h in
      let (u2, w2, e2, h2) = bind-ok _ _ w1 w' s h1 in
      let (u3, w3, e3, h3) = bind-ok _ _ w2 w' s h2 in
      let (store, made, h4) = or_throw-ok _ _ _ w3 w' s h3 in
      let (ensured, w5, e5, h5) = bind-ok _ _ w3 w' s h4 in
      let (u6, w6, e6, h6) = bind-ok _ _ w5 w' s h5 in
      let (same, last) = pure-ok _ s w6 w' h6 in
      let (endpoint, bucket) = store-of cfg store made in
      let new : w6 ≡ record w5 { banned_cache = new_banned_cache; limiters = new_limiters cfg } =
        (cc) in
      let end : w' ≡ record w5 { banned_cache = new_banned_cache; limiters = new_limiters cfg } =
        last ∙ new in
      let first : w1 ≡ w = config_or_exit-World _ w w1 u1 e1 in
      let (calls, before) = open_db-calls cfg w1 w2 u2 e2 in
      let (well, tables) = run_migrations-ok cfg.database_url w2 w3 u3 e3 in
      let ran : lib.up (suc w2.calls) w2.db ≡ lib.up (suc (suc (suc w.calls))) w.db =
        rw (calls, before, first) refl in
      let kept : w5.db ≡ w3.db = (ground arith) in
      record {
        config = ap (λ (x : Server). x.cfg) same;
        valid = (validate_iff cfg).0 (no_errors (validate cfg) w w1 u1 e1);
        endpoint = ap (λ (x : Server). x.store.endpoint) same ∙ endpoint;
        bucket = ap (λ (x : Server). x.store.bucket) same ∙ bucket;
        cache = ap (λ (x : World). x.banned_cache) end;
        limiters = rw end (record {
          public_limit = (refl, refl, refl);
          auth_limit = (refl, refl, refl);
          user_limit = (refl, refl, refl);
          upload_limit = (refl, refl, refl);
          download_limit = (refl, refl, refl);
        });
        migrated_well = λ e. well (ap (λ (r : Migration × Database). r.0) ran ∙ e);
        tables =
            ap (λ (x : World). x.db) end
            ∙ kept
            ∙ tables
            ∙ ap (λ (r : Migration × Database). r.1) ran;
      }

  -- When the server has started with the configuration that `Load` read and the errors that it
  -- found, there are none: the configuration is valid and the server's own; the store is of its
  -- endpoint and bucket; the cache is empty, and so are the five limiters, each with its limit, for
  -- a minute, a minute, a minute, a day and an hour; and the tables are those that the migrations
  -- returned, which did not fail.
  pub start-IsStarted :
      (getenv : String → String) (parse_float : String → Option ℕ)
      (parse_duration : String → Option ℤ) (w w' : World) (s : Server)
      → Returns (start lib s3 (load getenv parse_float parse_duration)) w s w'
      → IsStarted (load getenv parse_float parse_duration).0 s w w'
  unfolding load
  start-IsStarted getenv parse_float parse_duration w w' s h =
      started (load getenv parse_float parse_duration).0 w w' s h
