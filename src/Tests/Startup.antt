-- ===== src/Tests/Startup.antt =====
-- The start of the server, and the store, at concrete inputs.
use screenspace.Base.{
  ℕ, String, ◌≡◌, refl, true, false, Option, none, some, [], ◌∷◌, ℤ, str_eq, if◌then◌else◌,
}
use screenspace.Config.{Config, load}
use screenspace.Storage.{S3Client, S3Library, S3Store, new_s3_store, list_keys}
use screenspace.Server.World.{World}
use screenspace.Server.Exec.{◌>>=◌, call}
use screenspace.Server.Exec.Inversion.{Returns}
use screenspace.Startup.{
  Library, migrated, migrate_url, open_db, run_migrations, migrate_up, Server, start,
}
use screenspace.Startup.Started.{IsStarted, start-IsStarted}
use screenspace.Tests.Sample.{sample_world, sample_database}

abbrev sample_client : S3Client
sample_client = record {
  head_bucket = λ n bucket. false;
  create_bucket = λ n bucket. true;
  put_object = λ n bucket key content_type. true;
  get_object = λ n bucket key. true;
  delete_object = λ n bucket key. true;
  head_object = λ n bucket key. none;
  list_objects = λ n bucket prefix. some (some "a" ∷ none ∷ some "b" ∷ []);
  presign_get_object = λ n bucket key expiry. some "url";
  presign_put_object = λ n bucket key expiry. some "url";
}

abbrev sample_store : S3Store
sample_store = record { client = sample_client; bucket = "screenspace"; endpoint = "set" }

list_test : list_keys sample_store 0 "wallpapers/" ≡ some ("a" ∷ "b" ∷ [])
unfolding list_keys
list_test = refl

url_test : migrate_url "postgresql://db/screenspace" ≡ "pgx5://db/screenspace"
unfolding migrate_url
url_test = refl

abbrev sample_s3 : S3Library
sample_s3 = record {
  load_default_config = λ region access_key secret_key. true;
  new_from_config = λ endpoint. sample_client;
}

abbrev sample_library : Library
sample_library = record {
  parse_config = λ url. true;
  new_with_config = λ n pool. true;
  ping = λ n. true;
  migration_source = true;
  new_with_source_instance = λ n url. true;
  up = λ n d. (migrated, sample_database);
}

-- The variables without a default are set, and the secret is long enough.
abbrev getenv : String → String
getenv key =
    if str_eq key "JWT_SECRET"
    then "0123456789abcdef0123456789abcdef"
    else if str_eq key "DATABASE_URL"
    then "postgres://db"
    else if str_eq key "S3_ENDPOINT"
    then "set"
    else if str_eq key "S3_ACCESS_KEY"
    then "set"
    else if str_eq key "S3_SECRET_KEY"
    then "set"
    else ""

abbrev no_number : String → Option ℕ
no_number s = none

abbrev no_duration : String → Option ℤ
no_duration s = none

abbrev config : Config
config = (load getenv no_number no_duration).0

abbrev sample_server : Server
sample_server = record { cfg = config; store = sample_store }

abbrev after_start : World
after_start = (start sample_library sample_s3 (load getenv no_number no_duration) sample_world).1

start_done :
    Returns
      (start sample_library sample_s3 (load getenv no_number no_duration))
      sample_world
      sample_server
      after_start
unfolding start load open_db run_migrations migrate_up new_s3_store ◌>>=◌ call
start_done = refl

start-IsStarted_example :
    IsStarted sample_library sample_s3 config sample_server sample_world after_start
start-IsStarted_example =
    start-IsStarted sample_library sample_s3 getenv no_number no_duration sample_world after_start
      sample_server start_done
