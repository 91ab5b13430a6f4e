-- ===== src/Seed/Queries.antt =====
-- The queries of server/cmd/seed/seed.go, on the tables.
use screenspace.Base.{
  ℕ, ◌^◌, String, Bool, ◌&&◌, none, some, List, [], ◌∷◌, ◌++◌, ℤ, pos, negsuc, ltb, str_eq,
  if◌then◌else◌, find, any,
}
use screenspace.Types.{status_approved}
use screenspace.Db.Models.{
  Wallpaper, Database, Reply, done, failed, unique_violation, foreign_key_violation, out_of_range,
  one,
}
use screenspace.Db.Users.{user_id_is}
use screenspace.Db.Wallpapers.{wallpaper_id_is}
use screenspace.Db.Favorites.{favorite_is, new_favorite}
use screenspace.Server.Env.{ProbeResult}

abbrev pub has_title : String → Wallpaper → Bool
has_title title w = str_eq w.title title

-- SELECT id FROM wallpapers WHERE title = $1
unfoldable pub wallpaper_by_title : String → Database → Reply Wallpaper
wallpaper_by_title title db = one (find (has_title title) db.wallpapers)

-- The row that the INSERT of a wallpaper writes, with the defaults of the table.
abbrev pub seeded_wallpaper :
    ℕ
    → ℕ
    → String
    → ℕ
    → String
    → List String
    → String
    → ProbeResult
    → String
    → ℕ
    → String
    → String
    → String
    → Wallpaper
seeded_wallpaper id now title uploader category tags resolution info format downloads key thumb
      preview =
    record {
      id = id;
      title = title;
      uploader_id = uploader;
      status = status_approved;
      category = some category;
      tags = tags;
      resolution = resolution;
      width = info.width;
      height = info.height;
      duration = info.duration;
      file_size = info.size;
      format = format;
      download_count = downloads;
      storage_key = key;
      thumbnail_key = thumb;
      preview_key = preview;
      rejection_reason = none;
      created_at = now;
      updated_at = now;
    }

-- The column is an int4.
abbrev pub fits_int4 : ℤ → Bool
fits_int4 (pos n) = ltb n (2 ^ 31)
fits_int4 (negsuc n) = ltb n (2 ^ 31)

-- INSERT INTO wallpapers ... RETURNING id
unfoldable pub insert_wallpaper : Wallpaper → Database → Reply ℕ × Database
insert_wallpaper w db =
    if fits_int4 w.width && fits_int4 w.height
    then (if any (wallpaper_id_is w.id) db.wallpapers
        then (failed unique_violation, db)
        else if any (user_id_is w.uploader_id) db.users
        then (done w.id, record db { wallpapers = db.wallpapers ++ w ∷ [] })
        else (failed foreign_key_violation, db))
    else (failed out_of_range, db)

-- INSERT INTO favorites ... ON CONFLICT DO NOTHING
unfoldable pub insert_favorite_once : ℕ → ℕ → ℕ → Database → Reply (Unit {0}) × Database
insert_favorite_once now user_id wallpaper_id db =
    if any (favorite_is user_id wallpaper_id) db.favorites
    then (done tt, db)
    else if any (user_id_is user_id) db.users && any (wallpaper_id_is wallpaper_id) db.wallpapers
    then (
      done tt,
      record db { favorites = db.favorites ++ new_favorite now user_id wallpaper_id ∷ [] },
    )
    else (failed foreign_key_violation, db)
