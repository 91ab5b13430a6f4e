-- ===== src/Handler/Keeps/Rules.antt =====
-- What the parts that handlers share keep.
use screenspace.Base.{String, Option, none, some, List, [], ◌∷◌}
use screenspace.Apperr.{Error}
use screenspace.Config.{Config}
use screenspace.Db.Models.{WallpaperRow, Database}
use screenspace.Server.Env.{Env}
use screenspace.Server.Exec.{Exec}
use screenspace.Server.Exec.Keeps.{IsPreorder, Keeps, Keeps-bind, Keeps-pure, keeps_rules}
use screenspace.Service.Auth.{TokenClaims}
use screenspace.Handler.Adapter.{user_of, or_internal, each}
use screenspace.Handler.Rows.{WallpaperHandler, url_of, url_fields, row_to_map}

module _ (env : Env) (cfg : Config) {R : Database → Database → Type 0} (order : IsPreorder R) where
  pub user_of-Keeps : (claims : Option TokenClaims) → Keeps R (user_of claims)
  user_of-Keeps none = search (keeps_rules, order)
  user_of-Keeps (some c) = search (keeps_rules, order)

  pub or_internal-Keeps :
      {A : Type 0} (m : Exec A) (e : Error) → Keeps R m → Keeps R (or_internal m e)
  unfolding or_internal
  or_internal-Keeps m e k = record { at = λ w. k.at w }

  pub each-Keeps :
      {A B : Type 0} (f : A → Exec B) (xs : List A)
      → ((x : A) → Keeps R (f x))
      → Keeps R (each f xs)
  unfolding each
  each-Keeps f [] k = search (keeps_rules, order)
  each-Keeps f (x ∷ xs) k =
      Keeps-bind order (f x) _ (k x)
        λ y. Keeps-bind order (each f xs) _ (each-Keeps f xs k) λ ys. Keeps-pure order (y ∷ ys)

  pub url_of-Keeps : (h : Option WallpaperHandler) (key : String) → Keeps R (url_of env h key)
  unfolding url_of
  url_of-Keeps none key = search (keeps_rules, order) depth 12
  url_of-Keeps (some h) key = search (keeps_rules, order) depth 12

  pub url_fields-Keeps :
      (h : Option WallpaperHandler) (row : WallpaperRow) → Keeps R (url_fields env h row)
  unfolding url_fields
  url_fields-Keeps h row = search (keeps_rules, order, url_of-Keeps) depth 12

  pub row_to_map-Keeps :
      (h : Option WallpaperHandler) (row : WallpaperRow) → Keeps R (row_to_map env h row)
  unfolding row_to_map
  row_to_map-Keeps h row = search (keeps_rules, order, url_fields-Keeps) depth 12
