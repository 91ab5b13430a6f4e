-- ===== src/Tests/Seed.antt =====
-- The seed command at concrete inputs.
use screenspace.Base.{◌≡◌, refl, Bool, true, false, some, List, [], ◌∷◌}
use screenspace.Types.{category_valid}
use screenspace.Server.World.{World}
use screenspace.Seed.Videos.{SeedVideo, videos}
use screenspace.Seed.Footage.{Tools, without_quotes}
use screenspace.Seed.Run.{run}
use screenspace.Seed.Settled.{IsSettled, Reads, run-Reads}
use screenspace.Seed.References.{run-IsReferred}
use screenspace.Routes.Referred.{IsReferred}
use screenspace.Tests.Sample.{
  sample_config, sample_env, sample_world, sample_database, sample_user, pending_wallpaper,
}

abbrev all_known : List SeedVideo → Bool
all_known [] = true
all_known (v ∷ vs) = elim (category_valid v.category) [ true ↦ all_known vs | false ↦ false ]

-- The videos have categories that the server knows.
known_categories : all_known videos ≡ true
unfolding category_valid
known_categories = refl

quotes_test : without_quotes "it's" ≡ "its"
unfolding without_quotes
quotes_test = refl

abbrev sample_tools : Tools
sample_tools = record {
  make_dir = λ n. some "dir";
  get = λ n url. some 200;
  create_file = λ n path. true;
  copy_body = λ n. true;
  ffmpeg = λ n args. true;
  to_upper = λ s. s;
}

abbrev sample_seed : SeedVideo
sample_seed = record { url = "url"; title = "title"; category = "nature"; tags = []; downloads = 5 }

-- The account of the sample is the admin; the user has the wallpaper of that title as a favorite.
abbrev settled_world : World
settled_world = record sample_world {
  db = record sample_database {
    users = sample_user ∷ record sample_user { id = 2; email = "user@screenspace.dev" } ∷ [];
    favorites = record { user_id = 2; wallpaper_id = 1; created_at = 0 } ∷ [];
  };
}

settled : IsSettled (sample_seed ∷ []) "a@b.c" settled_world.db
settled = record {
  admin = sample_user;
  user = record sample_user { id = 2; email = "user@screenspace.dev" };
  has_admin = refl;
  has_user = refl;
  titles = ((pending_wallpaper, refl), tt);
  favorites = (refl, tt);
}

run-Reads_example :
    Reads (run sample_env sample_tools sample_config (sample_seed ∷ []) "a@b.c") settled_world tt
run-Reads_example =
    run-Reads sample_env sample_tools (λ n. refl) sample_config (sample_seed ∷ []) "a@b.c"
      settled_world settled

-- The command adds a user, two wallpapers and their favorites to the account of the sample.
abbrev fresh_seeds : List SeedVideo
fresh_seeds = record sample_seed { title = "one" } ∷ record sample_seed { title = "two" } ∷ []

abbrev admin_world : World
admin_world = record sample_world {
  db = record sample_database { users = sample_user ∷ []; wallpapers = [] };
}

admin_world-IsReferred : IsReferred admin_world.db
admin_world-IsReferred = record { favorites = tt; reports = tt; owners = tt }

run-IsReferred_example :
    IsReferred (run sample_env sample_tools sample_config fresh_seeds "a@b.c" admin_world).1.db
run-IsReferred_example =
    run-IsReferred sample_env sample_tools sample_config fresh_seeds "a@b.c" admin_world
      admin_world-IsReferred
