-- ===== src/Seed/Command.antt =====
-- server/cmd/seed/main.go: the command, from its environment to its exit.
use screenspace.Base.{ℕ, String, Bool, false, not, pos, str_eq, if◌then◌else◌}
use screenspace.Apperr.{internal}
use screenspace.Config.{Config}
use screenspace.Storage.{S3Library, new_s3_store, ensure_bucket, with_s3}
use screenspace.Server.Env.{Env}
use screenspace.Server.Exec.{Exec, throw_if, or_throw, call, ◌>>=◌, ◌>>◌}
use screenspace.Video.{with_ffprober}
use screenspace.Video as Video
use screenspace.Seed.Videos.{videos}
use screenspace.Seed.Footage.{Tools}
use screenspace.Seed.Run.{run}

-- The fields that the literal of `main` leaves out have their zero values.
abbrev zero_config : Config
zero_config = record {
  port = "";
  shutdown_timeout = pos 0;
  log_level = "";
  database_url = "";
  db_max_conns = pos 0;
  db_min_conns = pos 0;
  db_max_conn_lifetime = pos 0;
  db_health_check_period = pos 0;
  s3_endpoint = "";
  s3_bucket = "";
  s3_access_key = "";
  s3_secret_key = "";
  jwt_secret = "";
  jwt_expiry = pos 0;
  admin_email = "";
  bcrypt_cost = pos 0;
  min_password_len = pos 0;
  auth_rate_limit = pos 0;
  public_rate_limit = pos 0;
  user_rate_limit = pos 0;
  upload_rate_limit = pos 0;
  download_rate_limit = pos 0;
  max_file_size = pos 0;
  max_duration = 0;
  min_height = pos 0;
  max_title_length = pos 0;
  max_tag_count = pos 0;
  max_tag_length = pos 0;
  max_report_length = pos 0;
  default_page_size = pos 0;
  max_page_size = pos 0;
  presigned_download_expiry = pos 0;
  presigned_upload_expiry = pos 0;
  debug_enabled = false;
}

-- `os.Getenv`, pgxpool and the AWS library are arguments.
module _ (getenv : String → String) (new_pool : String → Bool) (ping : ℕ → Bool) (s3 : S3Library)
    (env : Env) (prober : Video.Tools) (tools : Tools) where
  -- `envOr`
  unfoldable pub env_or : String → String → String
  env_or key fallback = if not (str_eq (getenv key) "") then getenv key else fallback

  abbrev pub seed_config : Config
  seed_config = record zero_config { jwt_secret = getenv "JWT_SECRET"; bcrypt_cost = pos 10 }

  -- `main`: an error ends the process.
  unfoldable pub command : Exec (Unit {0})
  command = do
    throw_if (str_eq (getenv "DATABASE_URL") "") (internal "DATABASE_URL is required")
    throw_if (str_eq (getenv "JWT_SECRET") "") (internal "JWT_SECRET is required")
    throw_if (not (new_pool (getenv "DATABASE_URL"))) (internal "database")
    reached ← call ping
    throw_if (not reached) (internal "database ping")
    store ←
        or_throw
          (new_s3_store s3 (getenv "S3_ENDPOINT") (env_or "S3_BUCKET" "screenspace")
            (getenv "S3_ACCESS_KEY") (getenv "S3_SECRET_KEY"))
          (internal "storage")
    ensured ← call (ensure_bucket store)
    run (with_ffprober prober (with_s3 store env)) tools seed_config videos
        (env_or "ADMIN_EMAIL" "admin@screenspace.dev")
