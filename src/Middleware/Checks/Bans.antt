-- ===== src/Middleware/Checks/Bans.antt =====
-- A ban of server/internal/handler/admin.go takes effect on the next request of the user.
use screenspace.Base.{
  ℕ, String, ◌≡◌, refl, sym, ◌∙◌, ap, Bool, true, Option, none, some, List, [], ◌∷◌, inl, inr,
  arith, Bool-cases, find, map_if, eq_iff,
}
use screenspace.Base.Dict.{lookup, delete, lookup-delete}
use screenspace.Db.Models.{User, Database, one}
use screenspace.Db.Users.{user_id_is, get_user_by_id, set_banned}
use screenspace.Middleware.BannedCache.{BannedCache, is_banned, evict}
use screenspace.Server.Env.{Env}
use screenspace.Server.World.{World}
use screenspace.Server.Exec.{Result, ok, pure, ◌>>=◌, read}
use screenspace.Server.Exec.Inversion.{Returns, bind-ok, pure-ok, query-ok, wrote-ok, or_throw-ok}
use screenspace.Server.Json.{Response}
use screenspace.Server.Request.{Request, Handler}
use screenspace.Service.Auth.{TokenClaims}
use screenspace.Handler.Adapter.{claims_user}
use screenspace.Handler.Wallpaper.{one_text}
use screenspace.Handler.Admin.{change_banned, ban_user}
use screenspace.Middleware.Checks.{
  banned_check, cached_banned, by_cache, ask_banned, counts_as_banned, remember_banned,
  account_banned,
}

-- After an eviction the cache has no answer for the user.
is_banned-evict : (now : ℕ) (u : String) (c : BannedCache) → (is_banned now u (evict u c)).0 ≡ none
unfolding is_banned evict
is_banned-evict now u c =
    let gone : lookup u (delete u c) ≡ none = ground (arith, lookup-delete u u c, eq_iff u u) in
    rw gone refl

module _ (env : Env) where
  banned_users :
      (id : ℕ) (us : List User)
      → counts_as_banned env
          (one (find (user_id_is id) (map_if (user_id_is id) (λ u. record u { banned = true }) us)))
        ≡ true
  banned_users id [] = refl
  banned_users id (u ∷ us) = elim (Bool-cases (user_id_is id u)) [
    | inl is ↦ rw (is, is) refl
    | inr is_not ↦ rw (is_not, is_not) (banned_users id us)
  ]

  -- A user who is set to banned counts as banned, also one who is not there.
  banned_user :
      (id : ℕ) (d : Database)
      → counts_as_banned env (get_user_by_id id (set_banned true id d).1) ≡ true
  unfolding get_user_by_id set_banned
  banned_user id d = banned_users id d.users

  -- The end of the action changes nothing.
  claims_user-ok :
      (claims : Option TokenClaims) (r : Request) (w w' : World) (s : String)
      → Returns (claims_user (record r { claims = claims })) w s w'
      → w' ≡ w
  claims_user-ok none r w w' s h = absurd (cc)
  claims_user-ok (some c) r w w' s h = cc

  rest-same :
      (r : Request) (w v w' : World) (s : String) (response : Response)
      → Returns (claims_user r) w s v
      → Returns (pure (one_text "status" "banned")) v response w'
      → w' ≡ w
  rest-same r w v w' s response h k = (pure-ok _ _ v w' k).1 ∙ claims_user-ok r.claims r w v s h

  -- What a ban that succeeded leaves.
  record IsBan (r : Request) (w' : World) : Type 0 where
    target : ℕ
    before : Database
    cache_before : BannedCache
    parsed : env.parse_uuid r.id ≡ some target
    tables : w'.db ≡ (set_banned true target before).1
    cache : w'.banned_cache ≡ evict (env.uuid_string target) cache_before

  ban_user-IsBan :
      (r : Request) (w w' : World) (response : Response)
      → Returns (ban_user env r) w response w'
      → IsBan r w'
  unfolding ban_user change_banned
  ban_user-IsBan r w w' response h =
      let (id, parsed, h1) = or_throw-ok _ _ _ w w' response h in
      let (user, w1, found, d1, o1, h2) = query-ok env _ _ _ w w' response h1 in
      let (done_it, w2, wrote, d2, h3) = wrote-ok env _ _ _ w1 w' response h2 in
      let (u, w3, evicted, h4) = bind-ok _ _ w2 w' response h3 in
      let (admin_id, w4, read_claims, h5) = bind-ok _ _ w3 w' response h4 in
      record {
        target = id;
        before = w1.db;
        cache_before = w2.banned_cache;
        parsed = parsed;
        tables =
            ap (λ (x : World). x.db) (rest-same r w3 w4 w' admin_id response read_claims h5)
            ∙ ap (λ (p : Result (Unit {0}) × World). p.1.db) (sym evicted)
            ∙ d2;
        cache =
            ap (λ (x : World). x.banned_cache)
              (rest-same r w3 w4 w' admin_id response read_claims h5)
            ∙ ap (λ (p : Result (Unit {0}) × World). p.1.banned_cache) (sym evicted);
      }

  -- On a miss, a user that counts as banned is turned away.
  ask_banned-blocks :
      (c : TokenClaims) (next : Handler) (r : Request) (id : ℕ) (w : World)
      → env.parse_uuid c.user_id ≡ some id
      → counts_as_banned env (get_user_by_id id w.db) ≡ true
      → (ask_banned env c next r w).0 ≡ ok account_banned
  unfolding ask_banned ◌>>=◌ read remember_banned
  ask_banned-blocks c next r id w parsed banned = elim (Bool-cases (env.db_up w.calls)) [
    | inl up ↦ rw (parsed, ask_banned) (rw up (rw banned refl))
    | inr down ↦ rw (parsed, ask_banned) (rw down refl)
  ]

  by_cache-blocks :
      (c : TokenClaims) (hit : Option Bool) (next : Handler) (r : Request) (id : ℕ) (w : World)
      → hit ≡ none
      → env.parse_uuid c.user_id ≡ some id
      → counts_as_banned env (get_user_by_id id w.db) ≡ true
      → (by_cache env c hit next r w).0 ≡ ok account_banned
  by_cache-blocks c hit next r id w miss parsed banned =
      rw miss (ask_banned-blocks c next r id w parsed banned)

  miss : (now : ℕ) (u : String) (c b : BannedCache) → c ≡ evict u b → (is_banned now u c).0 ≡ none
  miss now u c b e = rw e (is_banned-evict now u b)

  blocked :
      (r r' : Request) (w' : World) (next : Handler) (id : ℕ) (role : String)
      → IsBan r w'
      → env.parse_uuid r.id ≡ some id
      → env.parse_uuid (env.uuid_string id) ≡ some id
      → (banned_check env next
          (record r' { claims = some (record { user_id = env.uuid_string id; role = role }) })
          w').0
        ≡ ok account_banned
  unfolding banned_check ◌>>=◌ cached_banned
  blocked r r' w' next id role ban is parses =
      let same : ban.target ≡ id = cc in
      let tables : w'.db ≡ (set_banned true id ban.before).1 = rw same at ban.tables in
      let cache : w'.banned_cache ≡ evict (env.uuid_string id) ban.cache_before =
        rw same at ban.cache in
      by_cache-blocks _ _ next _ id _
        (miss (env.clock w'.calls) (env.uuid_string id) w'.banned_cache ban.cache_before cache)
        parses (rw tables (banned_user id ban.before))

-- Once `BanUser` has answered for a user, the next request with that user's claims is answered by
-- 403 in `BannedCheck`, whatever the cache held before and whether or not the database can be
-- reached, when the text of a UUID parses to that UUID.
pub ban_user-blocks :
    (env : Env) (r r' : Request) (w w' : World) (response : Response) (id : ℕ) (role : String)
    → (next : Handler) → Returns (ban_user env r) w response w'
    → env.parse_uuid r.id ≡ some id
    → env.parse_uuid (env.uuid_string id) ≡ some id
    → (banned_check env next
        (record r' { claims = some (record { user_id = env.uuid_string id; role = role }) })
        w').0
      ≡ ok account_banned
ban_user-blocks env r r' w w' response id role next h is parses =
    blocked env r r' w' next id role (ban_user-IsBan env r w w' response h) is parses
