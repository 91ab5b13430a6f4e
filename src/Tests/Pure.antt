-- ===== src/Tests/Pure.antt =====
-- The theorems on configuration, pages and tokens at concrete inputs.
use screenspace.Base.{
  ℕ, ℤ, negsuc, String, Option, ◌≡◌, refl, ◌↔◌, [], none, some, pos, Option-cases, inl, inr, ◌≤ℤ◌,
  arith,
}
use screenspace.Config.{validate, env_int, env_int64}
use screenspace.Config.Integers.{env_int-show_int}
use screenspace.Strconv.{show_int}
use screenspace.Config.Laws.{IsValid, validate_iff}
use screenspace.Db.Wallpapers.{list_wallpapers_recent, list_wallpapers_popular}
use screenspace.Db.Wallpapers.Listing.{IsPageOf, list_wallpapers-IsPageOf}
use screenspace.Db.Wallpapers.Sorted.{
  IsSorted, newest_first, most_downloads_first, list_wallpapers-IsSorted,
}
use screenspace.Respond.{parse_pagination}
use screenspace.Respond.Pages.{parse_pagination_bounds}
use screenspace.Server.Exec.{◌>>=◌, call, ok}
use screenspace.Service.Auth.{generate_token, validate_token}
use screenspace.Service.Auth.Tokens.{validate-generate_token, AsksForKey, validate_token-hmac}
use screenspace.Server.Env.{SigningMethod, signing_hmac}
use screenspace.Tests.Sample.{
  sample_parse, sample_config, sample_env, sample_env-ParsesSigned, sample_world, sample_database,
  sample_request,
}

validate_iff_example : (validate sample_config ≡ []) ↔ IsValid sample_config
validate_iff_example = validate_iff sample_config

parse_pagination_bounds_example :
    (pos 1 ≤ℤ (parse_pagination (sample_request "one") (pos 20) (pos 100)).limit)
    × ((parse_pagination (sample_request "one") (pos 20) (pos 100)).limit ≤ℤ pos 100)
    × (pos 0 ≤ℤ (parse_pagination (sample_request "one") (pos 20) (pos 100)).offset)
parse_pagination_bounds_example =
    parse_pagination_bounds (sample_request "one") (pos 20) (pos 100) (omega arith) (omega arith)

list_wallpapers-IsPageOf_example :
    IsPageOf "approved" 5 (
      list_wallpapers_recent sample_env.ilike sample_env.tie_rank "approved" none
        (some "%sea%")
        (pos 5)
        (pos 0)
        sample_database)
    × IsPageOf "approved" 5 (
        list_wallpapers_popular sample_env.ilike sample_env.tie_rank "approved" none
          (some "%sea%")
          (pos 5)
          (pos 0)
          sample_database)
list_wallpapers-IsPageOf_example =
    list_wallpapers-IsPageOf sample_env.ilike sample_env.tie_rank "approved" none (some "%sea%") 5
      sample_database (pos 0)

token_made :
    (generate_token sample_env sample_config "one" "user" sample_world).0 ≡ ok (some "token")
unfolding generate_token ◌>>=◌ call
token_made = refl

validate-generate_token_example :
    validate_token sample_env sample_config 5 "token"
    ≡ some (record { user_id = "one"; role = "user" })
validate-generate_token_example =
    validate-generate_token sample_env sample_config sample_env-ParsesSigned "one" "user" "token" 5
      sample_world token_made refl

-- Every variable is "-5".
abbrev minus_five : String → String
minus_five key = show_int (negsuc 4)

abbrev no_number : String → Option ℕ
no_number s = none

abbrev no_duration : String → Option ℤ
no_duration s = none

env_int-show_int_example :
    (env_int minus_five no_number no_duration "MIN_HEIGHT" (pos 1080) ≡ negsuc 4)
    × (env_int64 minus_five no_number no_duration "MIN_HEIGHT" (pos 1080) ≡ negsuc 4)
env_int-show_int_example =
    env_int-show_int minus_five no_number no_duration "MIN_HEIGHT" (negsuc 4) (pos 1080) refl
      (omega arith)

list_wallpapers-IsSorted_example :
    IsSorted newest_first (
      list_wallpapers_recent sample_env.ilike sample_env.tie_rank "approved" none none
        (pos 20)
        (pos 0)
        sample_database)
    × IsSorted most_downloads_first (
        list_wallpapers_popular sample_env.ilike sample_env.tie_rank "approved" none none
          (pos 20)
          (pos 0)
          sample_database)
list_wallpapers-IsSorted_example =
    list_wallpapers-IsSorted sample_env.ilike sample_env.tie_rank "approved" none none 20 0
      sample_database

-- Every token has HS256 in its header.
abbrev hs256 : String → Option SigningMethod
hs256 token = some (signing_hmac "HS256")

sample_env-AsksForKey : AsksForKey sample_env hs256
sample_env-AsksForKey key now token t h = elim (Option-cases (key (signing_hmac "HS256"))) [
  | inl missing ↦ absurd (let h' = rw (missing, sample_parse) at h in cc)
  | inr (secret, given) ↦ (signing_hmac "HS256", secret, refl, given)
]

token_accepted :
    validate_token sample_env sample_config 5 "token"
    ≡ some (record { user_id = "one"; role = "user" })
unfolding validate_token
token_accepted = refl

validate_token-hmac_example : (alg : String) × (hs256 "token" ≡ some (signing_hmac alg))
validate_token-hmac_example =
    validate_token-hmac sample_env sample_config hs256 sample_env-AsksForKey 5 "token"
      (record { user_id = "one"; role = "user" }) token_accepted
