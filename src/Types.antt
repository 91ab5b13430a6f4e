-- ===== src/Types.antt =====
-- server/internal/types/enums.go: the named string types, their values and their `Valid` methods.
use screenspace.Base.{◌≡◌, String, Bool, ◌||◌, List, [], ◌∷◌, arith, any, str_eq}

abbrev pub status_pending : String
status_pending = "pending"

abbrev pub status_pending_review : String
status_pending_review = "pending_review"

abbrev pub status_approved : String
status_approved = "approved"

abbrev pub status_rejected : String
status_rejected = "rejected"

-- `WallpaperStatus.Valid`
unfoldable pub status_valid : String → Bool
status_valid s =
    str_eq s status_pending
    || str_eq s status_pending_review
    || str_eq s status_approved
    || str_eq s status_rejected

abbrev pub role_user : String
role_user = "user"

abbrev pub role_admin : String
role_admin = "admin"

-- `UserRole.Valid`
unfoldable pub role_valid : String → Bool
role_valid r = str_eq r role_user || str_eq r role_admin

-- `AllCategories`
unfoldable pub all_categories : List String
all_categories =
    "nature" ∷ "abstract" ∷ "urban" ∷ "cinematic" ∷ "space" ∷ "underwater" ∷ "minimal" ∷ "other"
    ∷ []

-- `Category.Valid`
unfoldable pub category_valid : String → Bool
category_valid c =
    str_eq c "nature"
    || str_eq c "abstract"
    || str_eq c "urban"
    || str_eq c "cinematic"
    || str_eq c "space"
    || str_eq c "underwater"
    || str_eq c "minimal"
    || str_eq c "other"

abbrev pub sort_recent : String
sort_recent = "recent"

abbrev pub sort_popular : String
sort_popular = "popular"

-- `SortOrder.Valid`
unfoldable pub sort_valid : String → Bool
sort_valid s = str_eq s sort_recent || str_eq s sort_popular

-- A text is a valid category exactly when the list of all categories, which clients are offered,
-- holds it.
category_valid-eq-any : (c : String) → category_valid c ≡ any (str_eq c) all_categories
unfolding category_valid all_categories
category_valid-eq-any c = ground arith
