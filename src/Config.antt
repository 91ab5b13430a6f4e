-- ===== src/Config.antt =====
-- server/internal/config/config.go: the configuration, read from the environment and validated.
pub mod Laws
pub mod Integers
use Prim.Native.String.{len, ◌++◌ as append}
use screenspace.Base.{
  ℕ, ◌+◌, ◌*◌, ◌^◌, String, Bool, true, false, not, Option, none, some, List, [], ◌∷◌, ◌++◌, ℤ, pos,
  ltb, ltb_ℤ, str_eq, if◌then◌else◌,
}
use screenspace.Strconv.{parse_int, parse_bool, show_int}
use screenspace.Float64.{sixty}

-- `Config`. Durations are in nanoseconds, and a float is its bit pattern.
pub record Config : Type 0 where
  pub port : String
  pub shutdown_timeout : ℤ
  pub log_level : String
  pub database_url : String
  pub db_max_conns : ℤ
  pub db_min_conns : ℤ
  pub db_max_conn_lifetime : ℤ
  pub db_health_check_period : ℤ
  pub s3_endpoint : String
  pub s3_bucket : String
  pub s3_access_key : String
  pub s3_secret_key : String
  pub jwt_secret : String
  pub jwt_expiry : ℤ
  pub admin_email : String
  pub bcrypt_cost : ℤ
  pub min_password_len : ℤ
  pub auth_rate_limit : ℤ
  pub public_rate_limit : ℤ
  pub user_rate_limit : ℤ
  pub upload_rate_limit : ℤ
  pub download_rate_limit : ℤ
  pub max_file_size : ℤ
  pub max_duration : ℕ
  pub min_height : ℤ
  pub max_title_length : ℤ
  pub max_tag_count : ℤ
  pub max_tag_length : ℤ
  pub max_report_length : ℤ
  pub default_page_size : ℤ
  pub max_page_size : ℤ
  pub presigned_download_expiry : ℤ
  pub presigned_upload_expiry : ℤ
  pub debug_enabled : Bool

abbrev seconds : ℕ → ℤ
seconds n = pos (n * 10 ^ 9)

-- `validate`: the errors that it joins, in order.
abbrev check : Bool → String → List String
check false message = []
check true message = message ∷ []

abbrev short_secret : ℕ → String
short_secret n =
    append "JWT_SECRET must be at least 32 characters (got " (append (show_int (pos n)) ")")

abbrev check_secret : String → List String
check_secret secret =
    if str_eq secret ""
    then "JWT_SECRET is required" ∷ []
    else check (ltb (len secret) 32) (short_secret (len secret))

unfoldable pub validate : Config → List String
validate c =
    check (str_eq c.database_url "") "DATABASE_URL is required"
    ++ (check_secret c.jwt_secret
        ++ (check (str_eq c.s3_endpoint "") "S3_ENDPOINT is required"
            ++ (check (str_eq c.s3_access_key "") "S3_ACCESS_KEY is required"
                ++ (check (str_eq c.s3_secret_key "") "S3_SECRET_KEY is required"
                    ++ (check (ltb_ℤ c.db_max_conns (pos 1)) "DB_MAX_CONNS must be >= 1"
                        ++ (check (ltb_ℤ c.db_min_conns (pos 0)) "DB_MIN_CONNS must be >= 0"
                            ++ (check (ltb_ℤ c.db_max_conns c.db_min_conns)
                                  "DB_MIN_CONNS must be <= DB_MAX_CONNS"
                                ++ check (ltb_ℤ c.max_page_size c.default_page_size)
                                    "MAX_PAGE_SIZE must be >= DEFAULT_PAGE_SIZE")))))))

-- `os.Getenv` is an argument: an unset variable reads as the empty text. So are the parsers of
-- floats and durations.
module _ (getenv : String → String) (parse_float : String → Option ℕ)
    (parse_duration : String → Option ℤ) where
  -- The value of a variable, or the default where it is empty or does not parse.
  abbrev env_or {ℓ} : {A : Type ℓ} → (String → Option A) → String → A → A
  env_or parse key def =
      if str_eq (getenv key) "" then def else elim (parse (getenv key)) [ none ↦ def | some v ↦ v ]

  unfoldable pub env_str : String → String → String
  env_str key def = if not (str_eq (getenv key) "") then getenv key else def

  unfoldable pub env_int : String → ℤ → ℤ
  env_int key def = env_or parse_int key def

  unfoldable pub env_int64 : String → ℤ → ℤ
  env_int64 key def = env_or parse_int key def

  unfoldable pub env_float64 : String → ℕ → ℕ
  env_float64 key def = env_or parse_float key def

  unfoldable pub env_duration : String → ℤ → ℤ
  env_duration key def = env_or parse_duration key def

  unfoldable pub env_bool : String → Bool → Bool
  env_bool key def = env_or parse_bool key def

  abbrev read : Config
  read = record {
    port = env_str "PORT" "8080";
    shutdown_timeout = env_duration "SHUTDOWN_TIMEOUT" (seconds 25);
    log_level = env_str "LOG_LEVEL" "info";
    database_url = getenv "DATABASE_URL";
    db_max_conns = env_int "DB_MAX_CONNS" (pos 25);
    db_min_conns = env_int "DB_MIN_CONNS" (pos 5);
    db_max_conn_lifetime = env_duration "DB_MAX_CONN_LIFETIME" (seconds 300);
    db_health_check_period = env_duration "DB_HEALTH_CHECK_PERIOD" (seconds 30);
    s3_endpoint = getenv "S3_ENDPOINT";
    s3_bucket = env_str "S3_BUCKET" "screenspace";
    s3_access_key = getenv "S3_ACCESS_KEY";
    s3_secret_key = getenv "S3_SECRET_KEY";
    jwt_secret = getenv "JWT_SECRET";
    jwt_expiry = env_duration "JWT_EXPIRY" (seconds (7 * 24 * 3600));
    admin_email = getenv "ADMIN_EMAIL";
    bcrypt_cost = env_int "BCRYPT_COST" (pos 10);
    min_password_len = env_int "MIN_PASSWORD_LENGTH" (pos 8);
    auth_rate_limit = env_int "AUTH_RATE_LIMIT" (pos 10);
    public_rate_limit = env_int "PUBLIC_RATE_LIMIT" (pos 120);
    user_rate_limit = env_int "USER_RATE_LIMIT" (pos 30);
    upload_rate_limit = env_int "UPLOAD_RATE_LIMIT" (pos 5);
    download_rate_limit = env_int "DOWNLOAD_RATE_LIMIT" (pos 60);
    max_file_size = env_int64 "MAX_FILE_SIZE" (pos (200 * 1024 * 1024));
    max_duration = env_float64 "MAX_DURATION" sixty;
    min_height = env_int "MIN_HEIGHT" (pos 1080);
    max_title_length = env_int "MAX_TITLE_LENGTH" (pos 255);
    max_tag_count = env_int "MAX_TAG_COUNT" (pos 10);
    max_tag_length = env_int "MAX_TAG_LENGTH" (pos 50);
    max_report_length = env_int "MAX_REPORT_LENGTH" (pos 500);
    default_page_size = env_int "DEFAULT_PAGE_SIZE" (pos 20);
    max_page_size = env_int "MAX_PAGE_SIZE" (pos 100);
    presigned_download_expiry = env_duration "PRESIGNED_DOWNLOAD_EXPIRY" (seconds 3600);
    presigned_upload_expiry = env_duration "PRESIGNED_UPLOAD_EXPIRY" (seconds (2 * 3600));
    debug_enabled = env_bool "DEBUG_ENABLED" false;
  }

  -- `Load`: the configuration and the errors of its validation.
  unfoldable pub load : Config × List String
  unfolding validate env_str env_int env_int64 env_float64 env_duration env_bool
  load = (read, validate read)

-- `DefaultConfig`
abbrev pub default_config : Config
default_config = record {
  port = "8080";
  shutdown_timeout = seconds 25;
  log_level = "info";
  database_url = "";
  db_max_conns = pos 25;
  db_min_conns = pos 5;
  db_max_conn_lifetime = seconds 300;
  db_health_check_period = seconds 30;
  s3_endpoint = "";
  s3_bucket = "screenspace";
  s3_access_key = "";
  s3_secret_key = "";
  jwt_secret = "test-secret-that-is-at-least-32-chars-long";
  jwt_expiry = seconds (7 * 24 * 3600);
  admin_email = "";
  bcrypt_cost = pos 10;
  min_password_len = pos 8;
  auth_rate_limit = pos 10;
  public_rate_limit = pos 120;
  user_rate_limit = pos 30;
  upload_rate_limit = pos 5;
  download_rate_limit = pos 60;
  max_file_size = pos (200 * 1024 * 1024);
  max_duration = sixty;
  min_height = pos 1080;
  max_title_length = pos 255;
  max_tag_count = pos 10;
  max_tag_length = pos 50;
  max_report_length = pos 500;
  default_page_size = pos 20;
  max_page_size = pos 100;
  presigned_download_expiry = seconds 3600;
  presigned_upload_expiry = seconds (2 * 3600);
  debug_enabled = false;
}
