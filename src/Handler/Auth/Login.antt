-- ===== src/Handler/Auth/Login.antt =====
-- What a login that succeeded has established.
use screenspace.Base.{ℕ, String, ◌≡◌, refl, sym, ◌∙◌, Bool, true, false, not, some, ℤ}
use screenspace.Config.{Config}
use screenspace.Db.Models.{User, done}
use screenspace.Db.Users.{get_user_by_email}
use screenspace.Server.Env.{Env}
use screenspace.Server.World.{World}
use screenspace.Server.Exec.Inversion.{
  Returns, bind-ok, pure-ok, or_throw-ok, throw_if-ok, query-ok,
}
use screenspace.Server.Json.{Response, json, obj, field, text, end}
use screenspace.Server.Request.{Request, Form}
use screenspace.Service.Auth.{generate_token, verify_password}
use screenspace.Handler.Auth.{login, respond_token}

-- The response with a token for the account.
abbrev pub token_response : ℕ → String → User → Response
token_response status token user =
    json status (obj (field "token" (text token) (field "role" (text user.role) end)))

module _ (env : Env) (cfg : Config) where
  -- The account and the token of a login.
  pub record IsLogin (r : Request) (w : World) (response : Response) : Type 0 where
    pub form : Form
    pub account : User
    pub token : String
    pub expires : ℤ
    pub issued : ℤ
    pub sent : r.body ≡ some form
    pub found : get_user_by_email form.email w.db ≡ done account
    pub not_banned : account.banned ≡ false
    pub matches : env.bcrypt_matches account.password_hash form.password ≡ true
    pub signed :
        env.jwt_sign cfg.jwt_secret (env.uuid_string account.id) account.role expires issued
        ≡ some token
    pub answered : response ≡ token_response 200 token account

  pub respond_token-ok :
      (status : ℕ) (user : User) (w w' : World) (response : Response)
      → Returns (respond_token env cfg status user) w response w'
      → (token : String) × (expires : ℤ) × (issued : ℤ) × (env.jwt_sign cfg.jwt_secret
            (env.uuid_string user.id)
            user.role
            expires
            issued
          ≡ some token)
        × (response ≡ token_response status token user)
  unfolding respond_token generate_token
  respond_token-ok status user w w' response h =
      let (generated, w1, made, h1) = bind-ok _ _ w w' response h in
      let (token, is_some, h2) = or_throw-ok generated _ _ w1 w' response h1 in
      let (expires, w2, first, m1) = bind-ok _ _ w w1 generated made in
      let (issued, w3, second, m2) = bind-ok _ _ w2 w1 generated m1 in
      let (same, end_world) = pure-ok _ _ w3 w1 m2 in
      (token, _, _, sym same ∙ is_some, (pure-ok _ _ w1 w' h2).0)

  pub unnegated : (b : Bool) → not b ≡ false → b ≡ true
  unnegated true h = refl
  unnegated false h = absurd (cc)

  -- When `Login` succeeds, the email of the request is that of an account that is not banned, the
  -- password matches its hash, and the answer holds a token that was signed for its id and role.
  pub login-IsLogin :
      (r : Request) (w w' : World) (response : Response)
      → Returns (login env cfg r) w response w'
      → IsLogin r w response
  unfolding login verify_password
  login-IsLogin r w w' response h =
      let (form, sent, h1) = or_throw-ok r.body _ _ w w' response h in
      let (given, h2) = throw_if-ok _ _ _ w w' response h1 in
      let (account, w1, found, same, objects, h3) = query-ok env _ _ _ w w' response h2 in
      let (not_banned, h4) = throw_if-ok account.banned _ _ w1 w' response h3 in
      let (mismatch, h5) = throw_if-ok _ _ _ w1 w' response h4 in
      let (token, expires, issued, signed, answered) =
        respond_token-ok 200 account w1 w' response h5 in
      record {
        form = form;
        account = account;
        token = token;
        expires = expires;
        issued = issued;
        sent = sent;
        found = found;
        not_banned = not_banned;
        matches = unnegated _ mismatch;
        signed = signed;
        answered = answered;
      }
