-- ===== src/Tests/Routes.antt =====
-- The theorems on the handlers and the routes at concrete inputs.
use screenspace.Base.{◌≡◌, refl, none, some, List, [], ◌∷◌, int32, inl, String, arith}
use screenspace.Types.{status_pending_review}
use screenspace.Strconv.{sscanf_int}
use screenspace.Db.Models.{Wallpaper, done, page}
use screenspace.Db.Order.{order_by}
use screenspace.Db.Wallpapers.{find_wallpaper, to_row, list_wallpapers_recent, count_wallpapers}
use screenspace.Server.Exec.{panicked, ◌>>=◌, read, call, write}
use screenspace.Server.Request.{Request}
use screenspace.Respond.{parse_pagination}
use screenspace.Handler.Admin.{queue}
use screenspace.Handler.Admin.Queue.{queue_page, queue_lem}
use screenspace.Base.Dict.{lookup}
use screenspace.Routes.{
  Route, get_wallpapers, post_reject, patch_wallpaper, post_favorite, post_download, post_finalize,
  serve_all,
}
use screenspace.Routes.Lifecycle.{Develops, serve_all-Develops, serve_all-IsFinal}
use screenspace.Routes.Steps.{serve_all-Reach}
use screenspace.Service.Wallpaper.Interleaved.{Reach}
use screenspace.Service.Wallpaper.Interleaved.Race.{quiet}
use screenspace.Routes.Privileges.Rights.{Unprivileged}
use screenspace.Routes.Privileges.{IsUserRequest, serve_all-Unprivileged}
use screenspace.Routes.Accounts.{IsUnique, serve_all-IsUnique}
use screenspace.Db.Users.{get_user_by_email, new_user, create_user}
use screenspace.Service.Auth.{validate_token, generate_token, verify_password, hash_password}
use screenspace.Handler.Auth.{login, respond_token, register, create_account, is_email}
use screenspace.Handler.Auth.Login.{IsLogin, login-IsLogin, token_response}
use screenspace.Server.Exec.Inversion.{Returns}
use screenspace.Server.World.{World}
use screenspace.Routes.Referred.{IsReferred}
use screenspace.Routes.References.{serve_all-IsReferred}
use screenspace.Server.Env.{Env}
use screenspace.Handler.Auth.Register.{IsRegistered, register-IsRegistered}
use screenspace.Routes.Favorites.{IsFullPage, serve_all-IsFullPage}
use screenspace.Tests.Sample.{
  sample_database, login_request, sample_user, sample_config, sample_env, sample_world,
  reviewed_wallpaper, approved_wallpaper, sample_request,
}

-- A visitor lists the wallpapers, and a user tries to reject and to change one.
abbrev sample_requests : List (Route × Request)
sample_requests =
    (get_wallpapers, sample_request "one")
    ∷ (post_reject, sample_request "three")
    ∷ (patch_wallpaper, sample_request "three")
    ∷ []

-- A user marks a wallpaper as a favorite, downloads it and finalizes an upload of his.
abbrev changing_requests : List (Route × Request)
changing_requests =
    (post_favorite, sample_request "three")
    ∷ (post_download, sample_request "three")
    ∷ (post_finalize, sample_request "one")
    ∷ []

serve_all-Develops_example :
    Develops sample_world.db
      (serve_all sample_env sample_config 0 changing_requests sample_world).db
serve_all-Develops_example =
    serve_all-Develops sample_env sample_config 0 changing_requests sample_world

serve_all-IsFinal_example :
    (v' : Wallpaper) × (find_wallpaper 3
        (serve_all sample_env sample_config 0 sample_requests sample_world).db
      ≡ some v')
    × (v'.status ≡ "approved")
serve_all-IsFinal_example =
    serve_all-IsFinal sample_env sample_config 0 sample_requests sample_world 3 approved_wallpaper
      refl (inl refl)

in_review :
    queue_page sample_env sample_config (sample_request "one") sample_world
    ≡ done (to_row reviewed_wallpaper ∷ [])
unfolding list_wallpapers_recent page order_by parse_pagination sscanf_int int32 lookup
in_review = refl

one_in_review :
    count_wallpapers sample_env.ilike status_pending_review none none sample_world.db ≡ done 1
unfolding count_wallpapers
one_in_review = refl

-- The queue of one wallpaper with a thumbnail panics.
queue_lem_example :
    (queue sample_env sample_config (sample_request "one") sample_world).0 ≡ panicked
queue_lem_example =
    queue_lem sample_env sample_config (sample_request "one") sample_world
      (to_row reviewed_wallpaper ∷ []) 1 refl refl in_review one_in_review

serve_all-IsUnique_example :
    IsUnique (serve_all sample_env sample_config 0 sample_requests sample_world).db.users
serve_all-IsUnique_example =
    serve_all-IsUnique sample_env sample_config 0 sample_requests sample_world (refl, tt)

login_done :
    Returns
      (login sample_env sample_config login_request)
      sample_world
      (token_response 200 "token" sample_user)
      (login sample_env sample_config login_request sample_world).1
unfolding login respond_token generate_token verify_password get_user_by_email ◌>>=◌ read call
login_done = refl

login-IsLogin_example :
    IsLogin sample_env sample_config login_request sample_world
      (token_response 200 "token" sample_user)
login-IsLogin_example =
    login-IsLogin sample_env sample_config login_request sample_world
      (login sample_env sample_config login_request sample_world).1
      (token_response 200 "token" sample_user) login_done

-- The user has a favorite.
abbrev favorite_world : World
favorite_world = record sample_world {
  db = record sample_database {
    favorites = record { user_id = 1; wallpaper_id = 3; created_at = 0 } ∷ [];
  };
}

favorite_world-IsReferred : IsReferred favorite_world.db
favorite_world-IsReferred = record {
  favorites = ((refl, refl), tt);
  reports = tt;
  owners = (refl, (refl, (refl, tt)));
}

serve_all-Reach_example :
    Reach sample_env sample_config
      (quiet sample_world.db)
      (quiet (serve_all sample_env sample_config 0 changing_requests sample_world).db)
serve_all-Reach_example = serve_all-Reach sample_env sample_config 0 changing_requests sample_world

serve_all-IsReferred_example :
    IsReferred (serve_all sample_env sample_config 0 changing_requests favorite_world).db
serve_all-IsReferred_example =
    serve_all-IsReferred sample_env sample_config 0 changing_requests favorite_world
      favorite_world-IsReferred

serve_all-IsFullPage_example :
    IsFullPage sample_env 1 20 0
      (serve_all sample_env sample_config 0 changing_requests favorite_world)
serve_all-IsFullPage_example =
    serve_all-IsFullPage sample_env (λ n. refl) 1 20 0 (ground arith) (ground arith) sample_config 0
      changing_requests favorite_world favorite_world-IsReferred

-- A visitor registers with the token that the sample signs, under the id 1.
abbrev register_env : Env
register_env = record sample_env { new_uuid = λ n. 1 }

abbrev empty_world : World
empty_world = record sample_world { db = record sample_database { users = [] } }

abbrev register_request : Request
register_request = record login_request {
  body = some (record {
    title = "";
    category = "";
    tags = none;
    reason = "";
    email = "a@b.c";
    password = "long enough";
  });
}

register_done :
    Returns
      (register register_env sample_config register_request)
      empty_world
      (token_response 201 "token" (new_user 1 1 "a@b.c" "long enough" "user"))
      (register register_env sample_config register_request empty_world).1
unfolding register create_account respond_token generate_token hash_password create_user is_email
    ◌>>=◌ read write call
register_done = refl

register-IsRegistered_example :
    IsRegistered register_env sample_config register_request empty_world.db
      (register register_env sample_config register_request empty_world).1.db
      (token_response 201 "token" (new_user 1 1 "a@b.c" "long enough" "user"))
register-IsRegistered_example =
    register-IsRegistered register_env sample_config register_request empty_world
      (register register_env sample_config register_request empty_world).1
      (token_response 201 "token" (new_user 1 1 "a@b.c" "long enough" "user")) register_done

-- The tokens of the sample are those of a user.
sample-IsUserRequest : (id : String) → IsUserRequest sample_env sample_config (sample_request id)
unfolding validate_token
sample-IsUserRequest id now token claims sent valid =
    let e : token ≡ "token" = (cc) in
    let valid' = rw e at valid in let same : claims.role ≡ "user" = (ground arith) in rw same refl

serve_all-Unprivileged_example :
    Unprivileged sample_world.db
      (serve_all sample_env sample_config 0 sample_requests sample_world).db
serve_all-Unprivileged_example =
    serve_all-Unprivileged sample_env sample_config 0 sample_requests sample_world (
      sample-IsUserRequest "one",
      (sample-IsUserRequest "three", (sample-IsUserRequest "three", tt)),
    )
