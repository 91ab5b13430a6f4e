-- ===== src/Config/Laws.antt =====
-- What a validated configuration guarantees.
use Prim.Native.String.{len}
use screenspace.Base.{◌≤◌, String, ◌≡◌, ◌≢◌, ◌↔◌, [], pos, ◌≤ℤ◌, arith, eq_iff}
use screenspace.Config.{Config, validate}

pub record IsValid (c : Config) : Type 0 where
  pub database_url : c.database_url ≢ ""
  pub jwt_secret : 32 ≤ len c.jwt_secret
  pub s3_endpoint : c.s3_endpoint ≢ ""
  pub s3_access_key : c.s3_access_key ≢ ""
  pub s3_secret_key : c.s3_secret_key ≢ ""
  pub max_conns : pos 1 ≤ℤ c.db_max_conns
  pub min_conns : pos 0 ≤ℤ c.db_min_conns
  pub conns : c.db_min_conns ≤ℤ c.db_max_conns
  pub pages : c.default_page_size ≤ℤ c.max_page_size

accepted-IsValid : (c : Config) → validate c ≡ [] → IsValid c
unfolding validate
accepted-IsValid c h = ground (
  arith,
  eq_iff c.database_url "",
  eq_iff c.s3_endpoint "",
  eq_iff c.s3_access_key "",
  eq_iff c.s3_secret_key "",
  eq_iff c.jwt_secret "",
)

-- The empty text has no bytes.
not_empty : (s : String) → 32 ≤ len s → s ≢ ""
not_empty s h e = let k = rw e at h in omega arith

accepted_of_IsValid : (c : Config) → IsValid c → validate c ≡ []
unfolding validate
accepted_of_IsValid c v = ground (
  arith,
  not_empty c.jwt_secret v.jwt_secret,
  eq_iff c.database_url "",
  eq_iff c.s3_endpoint "",
  eq_iff c.s3_access_key "",
  eq_iff c.s3_secret_key "",
  eq_iff c.jwt_secret "",
)

-- A configuration is accepted, with no error, exactly when it is valid: the required texts are
-- there, the secret has at least 32 bytes, and the limits on connections and pages are in order.
pub validate_iff : (c : Config) → (validate c ≡ []) ↔ IsValid c
validate_iff c = (accepted-IsValid c, accepted_of_IsValid c)
