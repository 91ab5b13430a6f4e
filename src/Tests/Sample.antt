-- ===== src/Tests/Sample.antt =====
-- A server in which everything works, with one user and three wallpapers.
use screenspace.Base.{
  ℕ, String, true, false, ◌&&◌, Option, none, some, [], ◌∷◌, ℤ, pos, ◌==◌, str_eq, if◌then◌else◌,
  eq_iff, arith,
}
use screenspace.Types.{status_pending, status_pending_review, status_approved, role_user}
use screenspace.Config.{Config, default_config}
use screenspace.Float64.{sixty}
use screenspace.Db.Models.{User, Wallpaper, Database}
use screenspace.Middleware.RateLimit.{RateLimiter, new_rate_limiter}
use screenspace.Server.Env.{Env, ProbeResult, Token, SigningMethod, signing_hmac}
use screenspace.Server.World.{World}
use screenspace.Server.Request.{Request}
use screenspace.Service.Auth.Tokens.{ParsesSigned}

abbrev pub sample_config : Config
sample_config = default_config

abbrev pub sample_video : ProbeResult
sample_video = record {
  width = pos 1920;
  height = pos 1080;
  duration = sixty;
  size = pos 1000;
  format = "h264";
}

abbrev pub uuid_string : ℕ → String
uuid_string n = if n == 1 then "one" else if n == 2 then "two" else "three"

abbrev pub parse_uuid : String → Option ℕ
parse_uuid s =
    if str_eq s "one"
    then some 1
    else if str_eq s "two"
    then some 2
    else if str_eq s "three"
    then some 3
    else none

-- Tokens of the user "one" with the role "user" only.
abbrev pub sample_sign : String → String → String → ℤ → ℤ → Option String
sample_sign secret sub role exp iat =
    if str_eq sub "one" && str_eq role "user" then some "token" else none

abbrev pub sample_parse : (SigningMethod → Option String) → ℕ → String → Option Token
sample_parse key now token = elim (key (signing_hmac "HS256")) [
  | none ↦ none
  | some secret ↦
      if str_eq token "token"
      then some
          (record { claims = some (record { sub = some "one"; role = some "user" }); valid = true })
      else none
]

abbrev pub sample_env : Env
sample_env = record {
  clock = λ n. n;
  db_up = λ n. true;
  new_uuid = λ n. 10;
  db_now = λ n. n;
  ilike = λ text pattern. true;
  tie_rank = λ lim off id. id;
  parse_uuid = parse_uuid;
  uuid_string = uuid_string;
  store_get = λ n key. true;
  store_put = λ n key content_type. true;
  presigned_url = λ n key expiry. some "url";
  presigned_upload_url = λ n key expiry. some "url";
  create_temp = λ n. some "tmp";
  copy = λ n limit. true;
  open_file = λ n. true;
  probe = λ n path. some sample_video;
  generate_thumbnail = λ n input output. true;
  generate_preview = λ n input output. true;
  leaves_partial = λ n path. false;
  show_float = λ x. "60";
  show_time = λ t. "time";
  show_duration = λ d. "0s";
  json_time = λ t. "time";
  bcrypt_hash = λ n password cost. some password;
  bcrypt_matches = str_eq;
  jwt_sign = sample_sign;
  jwt_parse = sample_parse;
}

pub sample_env-ParsesSigned : ParsesSigned sample_env
sample_env-ParsesSigned key secret sub role token exp iat now signed keyed before =
    rw (keyed, sample_parse) ground
      (arith, eq_iff sub "one", eq_iff role "user", eq_iff token "token")

abbrev pub sample_user : User
sample_user = record {
  id = 1;
  email = "a@b.c";
  password_hash = "secret";
  role = role_user;
  banned = false;
  created_at = 0;
}

-- A wallpaper of the user, by its id and status.
abbrev pub sample_wallpaper : ℕ → String → String → Wallpaper
sample_wallpaper id status thumbnail_key = record {
  id = id;
  title = "title";
  uploader_id = 1;
  status = status;
  category = none;
  tags = [];
  resolution = "";
  width = pos 0;
  height = pos 0;
  duration = 0;
  file_size = pos 0;
  format = "";
  download_count = 0;
  storage_key = "";
  thumbnail_key = thumbnail_key;
  preview_key = "";
  rejection_reason = none;
  created_at = 0;
  updated_at = 0;
}

abbrev pub pending_wallpaper : Wallpaper
pending_wallpaper = sample_wallpaper 1 status_pending ""

abbrev pub reviewed_wallpaper : Wallpaper
reviewed_wallpaper = sample_wallpaper 2 status_pending_review "thumbnail"

abbrev pub approved_wallpaper : Wallpaper
approved_wallpaper = sample_wallpaper 3 status_approved "thumbnail"

abbrev pub sample_database : Database
sample_database = record {
  users = sample_user ∷ [];
  wallpapers = pending_wallpaper ∷ reviewed_wallpaper ∷ approved_wallpaper ∷ [];
  favorites = [];
  reports = [];
}

abbrev sample_limiter : RateLimiter
sample_limiter = new_rate_limiter (pos 10) 60

abbrev pub sample_world : World
sample_world = record {
  db = sample_database;
  calls = 0;
  files = [];
  objects = [];
  banned_cache = [];
  limiters = record {
    public_limiter = sample_limiter;
    auth_limiter = sample_limiter;
    user_limiter = sample_limiter;
    upload_limiter = sample_limiter;
    download_limiter = sample_limiter;
  };
}

-- A request of the user, with its token, for the wallpaper or the user that it names.
abbrev pub sample_request : String → Request
sample_request id = record {
  id = id;
  query = ("limit", "7") ∷ [];
  body = none;
  remote_addr = "10.0.0.1:5000";
  authorization = "Bearer token";
  claims = some (record { user_id = "one"; role = role_user });
}

-- A request with the email and the password of the user.
abbrev pub login_request : Request
login_request = record (sample_request "one") {
  body = some (record {
    title = "";
    category = "";
    tags = none;
    reason = "";
    email = "a@b.c";
    password = "secret";
  });
}
