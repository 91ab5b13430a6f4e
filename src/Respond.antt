-- ===== src/Respond.antt =====
-- server/internal/respond/respond.go: `ParsePagination`. The writers of responses are in
-- Server/Json.antt.
pub mod Pages
use screenspace.Base.{String, Option, none, some, ℤ, pos, not, ◌&&◌, ltb_ℤ, str_eq, if◌then◌else◌}
use screenspace.Strconv.{sscanf_int}
use screenspace.Server.Request.{Request, get}

-- `Pagination`
pub record Pagination : Type 0 where
  pub limit : ℤ
  pub offset : ℤ

abbrev pub limit_of : ℤ → ℤ → Option ℤ → ℤ
limit_of default_limit max_limit none = default_limit
limit_of default_limit max_limit (some parsed) =
    if ltb_ℤ (pos 0) parsed
    then (if ltb_ℤ max_limit parsed then max_limit else parsed)
    else default_limit

abbrev pub offset_of : Option ℤ → ℤ
offset_of none = pos 0
offset_of (some parsed) = if ltb_ℤ parsed (pos 0) then pos 0 else parsed

-- `ParsePagination`
unfoldable pub parse_pagination : Request → ℤ → ℤ → Pagination
parse_pagination r default_limit max_limit = record {
  limit =
      if str_eq (get "limit" r) ""
      then default_limit
      else limit_of default_limit max_limit (sscanf_int (get "limit" r));
  offset = if str_eq (get "offset" r) "" then pos 0 else offset_of (sscanf_int (get "offset" r));
}
