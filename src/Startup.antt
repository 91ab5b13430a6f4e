-- ===== src/Startup.antt =====
-- server/main.go and server/migrate.go: how the server starts, up to the routes.
pub mod Started
use Prim.Native.Char.{code}
use Prim.Native.String.{◌++◌ as append}
use screenspace.Base.{
  ℕ, suc, ◌*◌, ◌^◌, String, Bool, true, false, not, Option, none, some, List, [], ◌∷◌, ℤ, pos,
  int32, if◌then◌else◌,
}
use screenspace.Apperr.{internal}
use screenspace.Config.{Config}
use screenspace.Strconv.{after_prefix}
use screenspace.Storage.{S3Library, S3Store, new_s3_store, ensure_bucket}
use screenspace.Server.Env.{Env}
use screenspace.Server.World.{World, Limiters}
use screenspace.Db.Models.{Database}
use screenspace.Server.Exec.{Exec, ok, pure, throw, throw_if, or_throw, call, modify, ◌>>=◌, ◌>>◌}
use screenspace.Middleware.BannedCache.{new_banned_cache, second}
use screenspace.Middleware.RateLimit.{new_rate_limiter}

-- The settings of `openDB` for the pool.
pub record PoolConfig : Type 0 where
  pub max_conns : ℤ
  pub min_conns : ℤ
  pub max_conn_lifetime : ℤ
  pub health_check_period : ℤ

-- What m.Up() of golang-migrate reports.
pub data Migration : Type 0 where
  migrated no_change failed_up : Migration

-- What is not in the repository: pgxpool and golang-migrate; `ping` is that of a pool, and `up` is
-- given the tables and returns those after it.
pub record Library : Type 0 where
  pub parse_config : String → Bool
  pub new_with_config : ℕ → PoolConfig → Bool
  pub ping : ℕ → Bool
  pub migration_source : Bool
  pub new_with_source_instance : ℕ → String → Bool
  pub up : ℕ → Database → Migration × Database

-- strings.Replace(s, old, new, 1), for a text `old` that is not empty.
unfoldable pub replace_first : String → String → String → String
replace_first old new String.[] = String.[]
replace_first old new (String.◌∷◌ c s) =
    let rest = String.◌∷◌ c (replace_first old new s) in
    elim (after_prefix old (String.◌∷◌ c s)) [ none ↦ rest | some tail ↦ append new tail ]

abbrev pub minute : ℕ
minute = 60 * second

abbrev pub hour : ℕ
hour = 60 * minute

-- The limiters that main.go makes.
abbrev pub new_limiters : Config → Limiters
new_limiters cfg = record {
  public_limiter = new_rate_limiter cfg.public_rate_limit minute;
  auth_limiter = new_rate_limiter cfg.auth_rate_limit minute;
  user_limiter = new_rate_limiter cfg.user_rate_limit minute;
  upload_limiter = new_rate_limiter cfg.upload_rate_limit (24 * hour);
  download_limiter = new_rate_limiter cfg.download_rate_limit hour;
}

abbrev pub pool_config : Config → PoolConfig
pool_config cfg = record {
  max_conns = int32 cfg.db_max_conns;
  min_conns = int32 cfg.db_min_conns;
  max_conn_lifetime = cfg.db_max_conn_lifetime;
  health_check_period = cfg.db_health_check_period;
}

-- The schemes of PostgreSQL become that of the driver.
unfoldable pub migrate_url : String → String
unfolding replace_first
migrate_url url =
    replace_first "postgres://" "pgx5://" (replace_first "postgresql://" "pgx5://" url)

module _ (lib : Library) where
  -- `openDB`
  unfoldable pub open_db : Config → Exec (Unit {0})
  open_db cfg = do
    throw_if (not (lib.parse_config cfg.database_url)) (internal "database")
    made ← call (λ n. lib.new_with_config n (pool_config cfg))
    throw_if (not made) (internal "database")
    reached ← call lib.ping
    throw_if (not reached) (internal "database")

  abbrev pub migration_result : Migration → Exec (Unit {0})
  migration_result migrated = pure tt
  migration_result no_change = pure tt
  migration_result failed_up = throw (internal "migration up")

  -- m.Up(), which changes the tables.
  unfoldable pub migrate_up : Exec Migration
  migrate_up w =
      let (done, tables) = lib.up w.calls w.db in
      (ok done, record w { calls = suc w.calls; db = tables })

  -- `RunMigrations`
  unfoldable pub run_migrations : String → Exec (Unit {0})
  run_migrations database_url = do
    throw_if (not lib.migration_source) (internal "migration source")
    made ← call (λ n. lib.new_with_source_instance n (migrate_url database_url))
    throw_if (not made) (internal "migration init")
    done ← migrate_up
    migration_result done

abbrev pub first_error : List String → Option String
first_error [] = none
first_error (e ∷ es) = some e

-- The first lines of `main`: a configuration with errors ends the process.
abbrev pub config_or_exit : Option String → Exec (Unit {0})
config_or_exit none = pure tt
config_or_exit (some e) = throw (internal e)

-- A server that is ready for requests.
pub record Server : Type 0 where
  pub cfg : Config
  pub store : S3Store

module _ (lib : Library) (s3 : S3Library) where
  -- The first part of `main`, for the result of `config.Load`. An error ends the process.
  unfoldable pub start : Config × List String → Exec Server
  start (cfg, errors) = do
    config_or_exit (first_error errors)
    open_db lib cfg
    run_migrations lib cfg.database_url
    store ←
        or_throw (new_s3_store s3 cfg.s3_endpoint cfg.s3_bucket cfg.s3_access_key cfg.s3_secret_key)
          (internal "storage")
    ensured ← call (ensure_bucket store)
    modify (λ w. record w { banned_cache = new_banned_cache; limiters = new_limiters cfg })
    pure (record { cfg = cfg; store = store })
