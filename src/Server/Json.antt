-- ===== src/Server/Json.antt =====
-- The bodies of the responses, and the responses of server/internal/respond/respond.go.
use screenspace.Base.{ℕ, String, Bool, List, [], ◌∷◌, ℤ, pos}

-- A JSON value. A float is its bit pattern.
mutual
  pub data Json : Type 0 where
    null : Json
    bool : Bool → Json
    int : ℤ → Json
    float : ℕ → Json
    text : String → Json
    arr : Items → Json
    obj : Fields → Json

  pub data Items : Type 0 where
    nil : Items
    item : Json → Items → Items

  pub data Fields : Type 0 where
    end : Fields
    field : String → Json → Fields → Fields

-- The status and body that a handler writes.
pub record Response : Type 0 where
  pub status : ℕ
  pub body : Json

abbrev pub items : List Json → Items
items [] = nil
items (x ∷ xs) = item x (items xs)

-- `respond.JSON`
abbrev pub json : ℕ → Json → Response
json status body = record { status = status; body = body }

-- `respond.Error`
unfoldable pub error : ℕ → String → String → Response
error status code message =
    json status (
      obj (field "error" (obj (field "code" (text code) (field "message" (text message) end))) end))

-- `respond.Paginated`
unfoldable pub paginated : List Json → ℕ → ℤ → ℤ → Response
paginated xs total limit offset = json 200 (
    obj (
      field "items" (arr (items xs)) (
        field "total" (int (pos total))
          (field "limit" (int limit) (field "offset" (int offset) end)))))
