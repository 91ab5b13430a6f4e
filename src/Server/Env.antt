-- ===== src/Server/Env.antt =====
-- What the server asks of code that is not in the repository: the clock, the database connection
-- and the ids that the database makes, PostgreSQL's ILIKE and the order in which it returns equal rows, google/uuid, the object store behind
-- server/internal/storage/store.go, the temporary files of the system, the prober of
-- server/internal/video/video.go, bcrypt and JWT. An answer may depend on how many such calls came
-- before: the first argument.
use screenspace.Base.{ℕ, String, Bool, Option, ℤ}

-- `ProbeResult`
pub record ProbeResult : Type 0 where
  pub width : ℤ
  pub height : ℤ
  pub duration : ℕ
  pub size : ℤ
  pub format : String

-- The claims of a token, by name, if they are texts.
pub record MapClaims : Type 0 where
  pub sub : Option String
  pub role : Option String

-- The method in the header of a token, by its name: of type *jwt.SigningMethodHMAC, or another.
pub data SigningMethod : Type 0 where
  signing_hmac signing_other : String → SigningMethod

-- What `jwt.Parse` returns: the claims, if they are jwt.MapClaims, and `Valid`.
pub record Token : Type 0 where
  pub claims : Option MapClaims
  pub valid : Bool

pub record Env : Type 0 where
  -- time.Now(), in nanoseconds
  pub clock : ℕ → ℕ
  -- whether the database can be reached
  pub db_up : ℕ → Bool
  -- uuid_generate_v4() of the database, or uuid.New() of the seed command; now() of the database
  pub new_uuid : ℕ → ℕ
  pub db_now : ℕ → ℕ
  pub ilike : String → String → Bool
  -- the order of the rows that ORDER BY does not tell apart: a rank for the id of each row, under a
  -- LIMIT and an OFFSET
  pub tie_rank : ℤ → ℤ → ℕ → ℕ
  -- uuid.Parse and UUID.String
  pub parse_uuid : String → Option ℕ
  pub uuid_string : ℕ → String
  -- Store.Get, Store.Put with the type of the content, Store.PreSignedURL, Store.PreSignedUploadURL
  pub store_get : ℕ → String → Bool
  pub store_put : ℕ → String → String → Bool
  pub presigned_url : ℕ → String → ℤ → Option String
  pub presigned_upload_url : ℕ → String → ℤ → Option String
  -- os.CreateTemp, io.Copy through io.LimitReader with its limit, os.Open
  pub create_temp : ℕ → Option String
  pub copy : ℕ → ℤ → Bool
  pub open_file : ℕ → Bool
  -- Prober.Probe, Prober.GenerateThumbnail, Prober.GeneratePreview, from the path of the video
  -- to that of the asset
  pub probe : ℕ → String → Option ProbeResult
  pub generate_thumbnail : ℕ → String → String → Bool
  pub generate_preview : ℕ → String → String → Bool
  -- whether ffmpeg leaves a part of its output behind when it fails
  pub leaves_partial : ℕ → String → Bool
  -- `%.0f` of fmt.Sprintf, time.Time.Format(time.RFC3339), time.Duration.String
  pub show_float : ℕ → String
  pub show_time : ℕ → String
  pub show_duration : ℕ → String
  -- pgtype.Timestamptz.MarshalJSON
  pub json_time : ℕ → String
  -- bcrypt.GenerateFromPassword with its cost, bcrypt.CompareHashAndPassword
  pub bcrypt_hash : ℕ → String → ℤ → Option String
  pub bcrypt_matches : String → String → Bool
  -- jwt: a token of HS256 signed with a secret, for sub, role, exp and iat in seconds; and Parse of
  -- a text with a function for the key, at a time in nanoseconds
  pub jwt_sign : String → String → String → ℤ → ℤ → Option String
  pub jwt_parse : (SigningMethod → Option String) → ℕ → String → Option Token
