-- ===== src/Server/Request.antt =====
-- A request as a handler sees it: after chi has matched its route and net/http has parsed it.
use screenspace.Base.{String, Option, none, some, List}
use screenspace.Base.Dict.{Dict, lookup}
use screenspace.Server.Exec.{Exec}
use screenspace.Server.Json.{Response}
use screenspace.Service.Auth.{TokenClaims}

-- The fields that the handlers decode from a JSON body, the zero value where the body has none.
pub record Form : Type 0 where
  pub title : String
  pub category : String
  pub tags : Option (List String)
  pub reason : String
  pub email : String
  pub password : String

pub record Request : Type 0 where
  -- chi.URLParam(r, "id")
  pub id : String
  pub query : Dict String
  -- what decodeJSON reads from the body, or nothing if it fails
  pub body : Option Form
  pub remote_addr : String
  -- r.Header.Get("Authorization")
  pub authorization : String
  -- the claims in the context
  pub claims : Option TokenClaims

-- `q.Get`
abbrev pub get : String → Request → String
get name r = elim (lookup name r.query) [ none ↦ "" | some v ↦ v ]

abbrev pub Handler : Type 0
Handler = Request → Exec Response
