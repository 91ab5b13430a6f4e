-- ===== src/Storage.antt =====
-- server/internal/storage: the interface of store.go, and `S3Store` of s3.go over the client of the
-- AWS library.
use screenspace.Base.{
  ℕ, suc, String, Bool, true, Option, none, some, List, [], ◌∷◌, ℤ, pos, if◌then◌else◌,
}
use screenspace.Server.Env.{Env}

-- `s3.HeadObjectOutput`
pub record HeadObject : Type 0 where
  pub content_length : Option ℤ
  pub content_type : Option String

-- The client of the AWS library: what each call answers, by the number of the calls before it, for
-- a bucket and a key or a prefix. `none` and `false` are errors.
pub record S3Client : Type 0 where
  pub head_bucket : ℕ → String → Bool
  pub create_bucket : ℕ → String → Bool
  pub put_object : ℕ → String → String → String → Bool
  pub get_object : ℕ → String → String → Bool
  pub delete_object : ℕ → String → String → Bool
  pub head_object : ℕ → String → String → Option HeadObject
  pub list_objects : ℕ → String → String → Option (List (Option String))
  pub presign_get_object : ℕ → String → String → ℤ → Option String
  pub presign_put_object : ℕ → String → String → ℤ → Option String

-- `awsconfig.LoadDefaultConfig` with a region and a key pair, and `s3.NewFromConfig` for an endpoint.
pub record S3Library : Type 0 where
  pub load_default_config : String → String → String → Bool
  pub new_from_config : String → S3Client

-- `ObjectInfo`
pub record ObjectInfo : Type 0 where
  pub key : String
  pub size : ℤ
  pub content_type : String

-- `S3Store`
pub record S3Store : Type 0 where
  pub client : S3Client
  pub bucket : String
  pub endpoint : String

-- `NewS3Store`
unfoldable pub new_s3_store : S3Library → String → String → String → String → Option S3Store
new_s3_store lib endpoint bucket access_key secret_key =
    if lib.load_default_config "us-east-1" access_key secret_key
    then some
        (record { client = lib.new_from_config endpoint; bucket = bucket; endpoint = endpoint })
    else none

-- The keys that are there.
unfoldable pub some_keys : List (Option String) → List String
some_keys [] = []
some_keys (none ∷ xs) = some_keys xs
some_keys (some k ∷ xs) = k ∷ some_keys xs

abbrev or_zero : {A : Type 0} → A → Option A → A
or_zero z none = z
or_zero z (some a) = a

module _ (s : S3Store) where
  -- `EnsureBucket`: the second call is made only if the first fails.
  unfoldable pub ensure_bucket : ℕ → Bool
  ensure_bucket n =
      if s.client.head_bucket n s.bucket then true else s.client.create_bucket (suc n) s.bucket

  -- `Put`, `Get`, `Delete`
  unfoldable pub put : ℕ → String → String → Bool
  put n key content_type = s.client.put_object n s.bucket key content_type

  unfoldable pub get : ℕ → String → Bool
  get n key = s.client.get_object n s.bucket key

  unfoldable pub delete_object : ℕ → String → Bool
  delete_object n key = s.client.delete_object n s.bucket key

  -- `Stat`
  unfoldable pub stat : ℕ → String → Option ObjectInfo
  stat n key = elim (s.client.head_object n s.bucket key) [
    | none ↦ none
    | some out ↦ some (record {
      key = key;
      size = or_zero (pos 0) out.content_length;
      content_type = or_zero "" out.content_type;
    })
  ]

  -- `List`
  unfoldable pub list_keys : ℕ → String → Option (List String)
  unfolding some_keys
  list_keys n prefix = elim (s.client.list_objects n s.bucket prefix) [
    | none ↦ none
    | some contents ↦ some (some_keys contents)
  ]

  -- `PreSignedURL`, `PreSignedUploadURL`
  unfoldable pub presigned_url : ℕ → String → ℤ → Option String
  presigned_url n key expiry = s.client.presign_get_object n s.bucket key expiry

  unfoldable pub presigned_upload_url : ℕ → String → ℤ → Option String
  presigned_upload_url n key expiry = s.client.presign_put_object n s.bucket key expiry

  -- The server with this store.
  abbrev pub with_s3 : Env → Env
  with_s3 env = record env {
    store_get = get;
    store_put = put;
    presigned_url = presigned_url;
    presigned_upload_url = presigned_upload_url;
  }
