-- ===== src/Handler/Wallpaper/Created.antt =====
-- What a successful `Create` has established: the wallpaper that `Finalize` will find.
use Prim.Native.String.{len, ◌++◌ as append}
use screenspace.Base.{
  ℕ, String, ◌≡◌, ◌≢◌, ◌⊎◌, refl, sym, ap, subst, ◌∙◌, Bool, true, false, not, ◌&&◌, Option, none,
  some, List, [], ◌∷◌, ◌++◌, pos, ◌≤ℤ◌, arith, ==_refl, str_eq, eq_iff, any, find, find-append,
  map_if, Bool-cases, inl, inr,
}
use screenspace.Types.{category_valid}
use screenspace.Db.Models.{Wallpaper, WallpaperRow, Database, done}
use screenspace.Db.Users.{user_id_is}
use screenspace.Db.Wallpapers.{
  wallpaper_id_is, find_wallpaper, to_row, new_wallpaper, create_wallpaper, update_wallpaper,
  update_wallpaper_storage_key,
}
use screenspace.Db.Wallpapers.Laws.{find-map_if_self}
use screenspace.Server.Env.{Env}
use screenspace.Server.World.{World}
use screenspace.Server.Exec.{call}
use screenspace.Server.Exec.Inversion.{
  Returns, bind-ok, pure-ok, or_throw-ok, throw_if-ok, wrote-ok,
}
use screenspace.Server.Json.{Response, json, obj, field, text, end}
use screenspace.Server.Request.{Request, Form}
use screenspace.Service.Auth.{TokenClaims}
use screenspace.Service.Wallpaper.{object_key}
use screenspace.Handler.Adapter.{user_of}
use screenspace.Handler.Rows.{WallpaperHandler, ptr_or_nil}
use screenspace.Handler.Wallpaper.{create, create_row}

find-any {ℓ} : {A : Type ℓ} (p : A → Bool) (xs : List A) → any p xs ≡ false → find p xs ≡ none
find-any p [] h = refl
find-any p (x ∷ xs) h = ground (arith, find-any p xs)

-- An UPDATE of the row that was added changes no other.
map_if-added :
    (id : ℕ) (f : Wallpaper → Wallpaper) (ws : List Wallpaper) (x : Wallpaper)
    → any (wallpaper_id_is id) ws ≡ false
    → wallpaper_id_is id x ≡ true
    → map_if (wallpaper_id_is id) f (ws ++ x ∷ []) ≡ ws ++ f x ∷ []
map_if-added id f [] x fresh here = rw here refl
map_if-added id f (w ∷ ws) x fresh here =
    let other : wallpaper_id_is id w ≡ false = ground (arith, fresh) in
    let rest : any (wallpaper_id_is id) ws ≡ false = ground (arith, fresh) in
    rw other (ap (λ l. w ∷ l) (map_if-added id f ws x rest here))

-- The row of an INSERT that succeeded.
module _ (id now : ℕ) (title : String) (uploader : ℕ) (key : String)
    (category : Option String) where
  abbrev row : Wallpaper
  row = new_wallpaper id now title uploader key category

  find-added :
      (ws : List Wallpaper)
      → any (wallpaper_id_is id) ws ≡ false
      → find (wallpaper_id_is id) (ws ++ row ∷ []) ≡ some row
  find-added ws fresh =
      find-append (wallpaper_id_is id) ws (row ∷ [])
      ∙ rw (find-any (wallpaper_id_is id) ws fresh) (rw (==_refl id) refl)

  create_wallpaper-done :
      (d : Database) (a : WallpaperRow)
      → (create_wallpaper id now title uploader key category d).0 ≡ done a
      → (any (wallpaper_id_is id) d.wallpapers ≡ false)
        × (any (user_id_is uploader) d.users ≡ true)
        × (a ≡ to_row row)
        × (find_wallpaper id (create_wallpaper id now title uploader key category d).1 ≡ some row)
        × ((create_wallpaper id now title uploader key category d).1.wallpapers
            ≡ d.wallpapers ++ row ∷ [])
  unfolding create_wallpaper
  create_wallpaper-done d a h = elim (Bool-cases (any (wallpaper_id_is id) d.wallpapers)) [
    | inl taken ↦ absurd (let h' = rw taken at h in cc)
    | inr fresh ↦ elim (Bool-cases (any (user_id_is uploader) d.users)) [
      | inl known ↦ (
        fresh,
        known,
        let h' = rw (fresh, known) at h in cc,
        rw (fresh, known) (find-added d.wallpapers fresh),
        rw (fresh, known) refl,
      )
      | inr unknown ↦ absurd (let h' = rw (fresh, unknown) at h in cc)
    ]
  ]

module _ (env : Env) (h : WallpaperHandler) where
  -- The row of the wallpaper once its key is stored: pending, and still without a video.
  abbrev pub pending_row : ℕ → ℕ → ℕ → Form → ℕ → Wallpaper
  pending_row id created updated form uploader = record {
    id = id;
    title = form.title;
    uploader_id = uploader;
    status = "pending";
    category = ptr_or_nil form.category;
    tags = [];
    resolution = "";
    width = pos 0;
    height = pos 0;
    duration = 0;
    file_size = pos 0;
    format = "";
    download_count = 0;
    storage_key = append "wallpapers/" (append (env.uuid_string id) "/original.mp4");
    thumbnail_key = "";
    preview_key = "";
    rejection_reason = none;
    created_at = created;
    updated_at = updated;
  }

  abbrev pub upload_response : ℕ → String → Response
  upload_response id url =
      json 201 (obj (field "id" (text (env.uuid_string id)) (field "upload_url" (text url) end)))

  -- What was added for a form.
  pub record IsAdded (uploader : ℕ) (form : Form) (d d' : Database) (response : Response)
      : Type 0 where
    pub id : ℕ
    pub created : ℕ
    pub updated : ℕ
    pub calls : ℕ
    pub url : String
    pub fresh : any (wallpaper_id_is id) d.wallpapers ≡ false
    pub uploader_known : any (user_id_is uploader) d.users ≡ true
    pub stored : d'.wallpapers ≡ d.wallpapers ++ pending_row id created updated form uploader ∷ []
    pub found : find_wallpaper id d' ≡ some (pending_row id created updated form uploader)
    pub signed :
        env.presigned_upload_url calls
          (object_key env id "original.mp4")
          h.cfg.presigned_upload_expiry
        ≡ some url
    pub answered : response ≡ upload_response id url

  create_row-ok :
      (uploader : ℕ) (form : Form) (w w' : World) (response : Response)
      → Returns (create_row env h uploader form) w response w'
      → IsAdded uploader form w.db w'.db response
  unfolding create_row call update_wallpaper_storage_key update_wallpaper
  create_row-ok uploader form w w' response r =
      let (wp, w1, first, d1, h1) = wrote-ok env _ _ _ w w' response r in
      let id = env.new_uuid w.calls in
      let now = env.db_now w.calls in
      let (fresh, known, is_row, added, all) =
        create_wallpaper-done id now form.title uploader "pending" (ptr_or_nil form.category) w.db
          wp first in
      let same_id : wp.id ≡ id = ap (λ (x : WallpaperRow). x.id) is_row in
      let (u, w2, second, d2, h2) = wrote-ok env _ _ _ w1 w' response h1 in
      let (signed, w3, asked, h3) = bind-ok _ _ w2 w' response h2 in
      let (url, is_some, h4) = or_throw-ok signed _ _ w3 w' response h3 in
      let (answered, last) = pure-ok _ response w3 w' h4 in
      let key_of : (ℕ → String) = λ i. object_key env i "original.mp4" in
      let is_signed : signed
          ≡ env.presigned_upload_url w2.calls (key_of wp.id) h.cfg.presigned_upload_expiry =
        (cc) in
      let tables : w'.db
          ≡ update_wallpaper wp.id
              (λ x. record x { storage_key = key_of wp.id; updated_at = env.db_now w1.calls })
              w1.db =
        (ground arith) in
      record {
        id = id;
        created = now;
        updated = env.db_now w1.calls;
        calls = w2.calls;
        url = url;
        fresh = fresh;
        uploader_known = known;
        stored =
            rw (tables, same_id, d1, all)
              (map_if-added id _ w.db.wallpapers
                (row id now form.title uploader "pending" (ptr_or_nil form.category)) fresh
                (==_refl id));
        found =
            rw (tables, same_id, d1)
              (find-map_if_self id _ (λ x. refl)
                (create_wallpaper id now form.title uploader "pending" (ptr_or_nil form.category)
                  w.db).1.wallpapers
                added);
        signed = rw (← same_id) (sym is_signed ∙ is_some);
        answered = rw (← same_id) answered;
      }

  user_of-ok :
      (claims : Option TokenClaims) (w w' : World) (user : String)
      → Returns (user_of claims) w user w'
      → (c : TokenClaims) × (claims ≡ some c) × (user ≡ c.user_id) × (w' ≡ w)
  user_of-ok none w w' user r = absurd (cc)
  user_of-ok (some c) w w' user r = (c, refl, cc, cc)

  -- The request and the wallpaper that was made for it.
  pub record IsCreated (r : Request) (d d' : Database) (response : Response) : Type 0 where
    pub form : Form
    pub claims : TokenClaims
    pub uploader : ℕ
    pub sent : r.body ≡ some form
    pub titled : form.title ≢ ""
    pub short : pos (len form.title) ≤ℤ h.cfg.max_title_length
    pub category : (form.category ≡ "") ⊎ (category_valid form.category ≡ true)
    pub claimed : r.claims ≡ some claims
    pub is_user : env.parse_uuid claims.user_id ≡ some uploader
    pub added : IsAdded uploader form d d' response

  titled_of : (s : String) → str_eq s "" ≡ false → s ≢ ""
  titled_of s e q = ground (arith, eq_iff s "")

  category_of :
      (s : String)
      → (not (str_eq s "") && not (category_valid s)) ≡ false
      → (s ≡ "") ⊎ (category_valid s ≡ true)
  category_of s e = ground (arith, eq_iff s "")

  -- When `Create` succeeds, the title of the request is not empty and not too long, its category is
  -- empty or known, and the id of its token is that of an account. Exactly one wallpaper was
  -- added: pending, of that account, with that title and category, under an id that no wallpaper
  -- had, and with the key under which `Finalize` looks for the video. The answer holds the id and a URL that was signed for an upload to this key.
  pub create-IsCreated :
      (r : Request) (w w' : World) (response : Response)
      → Returns (create env h r) w response w'
      → IsCreated r w.db w'.db response
  unfolding create
  create-IsCreated r w w' response k =
      let (form, sent, h1) = or_throw-ok r.body _ _ w w' response k in
      let (given, h2) = throw_if-ok _ _ _ w w' response h1 in
      let (short, h3) = throw_if-ok _ _ _ w w' response h2 in
      let (known, h4) = throw_if-ok _ _ _ w w' response h3 in
      let (user, w1, claimed, h5) = bind-ok _ _ w w' response h4 in
      let (c, has_claims, same_user, same_world) = user_of-ok r.claims w w1 user claimed in
      let (uploader, parsed, h6) = or_throw-ok (env.parse_uuid user) _ _ w1 w' response h5 in
      let added = create_row-ok uploader form w1 w' response h6 in
      let same : w1.db ≡ w.db = ap (λ (x : World). x.db) same_world in
      record {
        form = form;
        claims = c;
        uploader = uploader;
        sent = sent;
        titled = titled_of form.title given;
        short = ground arith;
        category = category_of form.category known;
        claimed = has_claims;
        is_user = ap env.parse_uuid (sym same_user) ∙ parsed;
        added = subst (λ d. IsAdded uploader form d w'.db response) same added;
      }
