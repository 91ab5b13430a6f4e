-- ===== src/Handler/Adapter.antt =====
-- server/internal/handler/adapter.go and util.go: how an error becomes a response, and what the
-- handlers read of a request.
use screenspace.Base.{ℕ, String, Option, none, some, List, [], ◌∷◌}
use screenspace.Apperr.{Error, bad_request}
use screenspace.Server.Env.{Env}
use screenspace.Server.Exec.{
  Exec, Result, ok, err, panicked, pure, nil_dereference, or_throw, ◌>>=◌,
}
use screenspace.Server.Json.{Response, error}
use screenspace.Service.Auth.{TokenClaims}
use screenspace.Server.Request.{Request, Form, Handler}

-- A Go error: one that wraps an `*apperr.Error`, one of the sentinels, or any other.
pub data GoError : Type 0 where
  app : Error → GoError
  err_not_found err_forbidden err_conflict err_bad_request : GoError
  other : GoError

-- `handleError`
unfoldable pub handle_error : GoError → Response
handle_error (app e) = error e.status e.code e.message
handle_error err_not_found = error 404 "not_found" "not found"
handle_error err_forbidden = error 403 "forbidden" "forbidden"
handle_error err_conflict = error 409 "conflict" "conflict"
handle_error err_bad_request = error 400 "bad_request" "bad request"
handle_error other = error 500 "internal_error" "internal server error"

abbrev pub responded : Result Response → Result Response
responded (ok r) = ok r
responded (err e) = ok (handle_error (app e))
responded panicked = panicked

-- `Wrap`
unfoldable pub wrap : Handler → Handler
wrap h r w = let (res, w') = h r w in (responded res, w')

abbrev pub relabelled : {A : Type 0} → Error → Result A → Result A
relabelled e (ok a) = ok a
relabelled e (err x) = err e
relabelled e panicked = panicked

-- if err != nil { return Internal(fmt.Errorf(label, err)) }, after a call of a service
unfoldable pub or_internal : {A : Type 0} → Exec A → Error → Exec A
or_internal m e w = let (res, w') = m w in (relabelled e res, w')

-- `claims.UserID`, of claims that may be nil.
abbrev pub user_of : Option TokenClaims → Exec String
user_of none = nil_dereference
user_of (some c) = pure c.user_id

abbrev pub claims_user : Request → Exec String
claims_user r = user_of r.claims

-- `uuid.Parse`, with the error that the handler returns.
abbrev pub parsed_uuid : Env → String → Error → Exec ℕ
parsed_uuid env s e = or_throw (env.parse_uuid s) e

-- `parseUUID`
abbrev pub parse_uuid : Env → String → Exec ℕ
parse_uuid env s = or_throw (env.parse_uuid s) (bad_request "invalid id format")

-- `decodeJSON`
abbrev pub decode_json : Request → Exec Form
decode_json r = or_throw r.body (bad_request "invalid request body")

-- for i := range xs { items[i] = f(xs[i]) }
unfoldable pub each : {A B : Type 0} → (A → Exec B) → List A → Exec (List B)
each f [] = pure []
each f (x ∷ xs) = do y ← f x; ys ← each f xs; pure (y ∷ ys)
