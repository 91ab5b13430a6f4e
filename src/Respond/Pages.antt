-- ===== src/Respond/Pages.antt =====
-- The bounds of a page.
use screenspace.Base.{ℤ, pos, ◌≤ℤ◌, arith, Option, none, some}
use screenspace.Strconv.{sscanf_int}
use screenspace.Server.Request.{Request, get}
use screenspace.Respond.{parse_pagination, limit_of, offset_of}

limit_of_bounds :
    (d m : ℤ) (parsed : Option ℤ)
    → pos 1 ≤ℤ d
    → d ≤ℤ m
    → (pos 1 ≤ℤ limit_of d m parsed) × (limit_of d m parsed ≤ℤ m)
limit_of_bounds d m none low high = (low, high)
limit_of_bounds d m (some parsed) low high = ground arith

offset_of_bounds : (parsed : Option ℤ) → pos 0 ≤ℤ offset_of parsed
offset_of_bounds none = omega arith
offset_of_bounds (some parsed) = ground arith

-- Where the default limit is at least 1 and at most the largest one, every page that a request asks for has a limit between 1 and the largest one, and an
-- offset that is not negative, whatever its query holds.
pub parse_pagination_bounds :
    (r : Request) (default_limit max_limit : ℤ)
    → pos 1 ≤ℤ default_limit
    → default_limit ≤ℤ max_limit
    → (pos 1 ≤ℤ (parse_pagination r default_limit max_limit).limit)
      × ((parse_pagination r default_limit max_limit).limit ≤ℤ max_limit)
      × (pos 0 ≤ℤ (parse_pagination r default_limit max_limit).offset)
unfolding parse_pagination
parse_pagination_bounds r d m low high =
    let (l, u) = limit_of_bounds d m (sscanf_int (get "limit" r)) low high in
    ground (arith, offset_of_bounds (sscanf_int (get "offset" r)))
