-- ===== src/Handler/Auth/Register.antt =====
-- What a registration that succeeded has established.
use screenspace.Base.{
  ℕ, String, ◌≡◌, refl, sym, ◌∙◌, ap, false, ◌||◌, some, [], ◌∷◌, ◌++◌, ℤ, any, arith, inl, ◌≢◌,
  str_eq, eq_iff, inr, Bool-cases,
}
use screenspace.Config.{Config}
use screenspace.Strconv.{codes}
use screenspace.Db.Models.{
  User, Database, Reply, done, failed, no_rows, unique_violation, foreign_key_violation,
  out_of_range, unavailable,
}
use screenspace.Db.Users.{user_id_is, user_email_is, create_user, new_user}
use screenspace.Server.Env.{Env}
use screenspace.Server.World.{World}
use screenspace.Server.Exec.{Result, call, write}
use screenspace.Server.Exec.Keeps.{Keeps, keeps_rules}
use screenspace.Server.Exec.From.{Same, Same-order}
use screenspace.Server.Exec.Inversion.{Returns, bind-ok, or_throw-ok, throw_if-ok}
use screenspace.Server.Json.{Response}
use screenspace.Server.Request.{Request, Form}
use screenspace.Service.Auth.{generate_token, hash_password}
use screenspace.Handler.Auth.{register, create_account, created_or_throw, respond_token, role_for}
use screenspace.Handler.Auth.Email.{IsEmail, is_email-IsEmail}
use screenspace.Handler.Auth.Login.{token_response, respond_token-ok, unnegated}

created-ok :
    (reply : Reply User) (user : User) (w w' : World)
    → Returns (created_or_throw reply) w user w'
    → (reply ≡ done user) × (w' ≡ w)
created-ok (done u) user w w' h = (cc, cc)
created-ok (failed no_rows) user w w' h = absurd (cc)
created-ok (failed unique_violation) user w w' h = absurd (cc)
created-ok (failed foreign_key_violation) user w w' h = absurd (cc)
created-ok (failed out_of_range) user w w' h = absurd (cc)
created-ok (failed unavailable) user w w' h = absurd (cc)

-- A user that was inserted.
inserted :
    (id now : ℕ) (email hash role : String) (d : Database) (user : User)
    → (create_user id now email hash role d).0 ≡ done user
    → (any (user_email_is email) d.users ≡ false)
      × (user ≡ new_user id now email hash role)
      × ((create_user id now email hash role d).1.users ≡ d.users ++ user ∷ [])
unfolding create_user
inserted id now email hash role d user h =
    elim (Bool-cases (any (user_id_is id) d.users || any (user_email_is email) d.users)) [
      | inl taken ↦ absurd (let h' = rw taken at h in cc)
      | inr free ↦
          let h' = rw free at h in
          let same : user ≡ new_user id now email hash role = cc in
          (ground (arith, free), same, rw free (rw same refl))
    ]

module _ (env : Env) (cfg : Config) where
  role_for-admin : (email : String) → email ≡ cfg.admin_email → role_for env cfg email ≡ "admin"
  role_for-admin email e = ground (arith, eq_iff email cfg.admin_email, e)

  role_for-user : (email : String) → email ≢ cfg.admin_email → role_for env cfg email ≡ "user"
  role_for-user email e = elim (Bool-cases (str_eq email cfg.admin_email)) [
    | inl same ↦ absurd (e ((eq_iff email cfg.admin_email).0 same))
    | inr other ↦ rw other refl
  ]

  -- The new account and its token.
  pub record IsRegistered (r : Request) (d d' : Database) (response : Response) : Type 0 where
    pub form : Form
    pub account : User
    pub token : String
    pub expires : ℤ
    pub issued : ℤ
    pub sent : r.body ≡ some form
    pub valid : IsEmail (codes form.email)
    pub fresh : any (user_email_is form.email) d.users ≡ false
    pub email : account.email ≡ form.email
    pub admin : form.email ≡ cfg.admin_email → account.role ≡ "admin"
    pub user : form.email ≢ cfg.admin_email → account.role ≡ "user"
    pub not_banned : account.banned ≡ false
    pub stored : d'.users ≡ d.users ++ account ∷ []
    pub signed :
        env.jwt_sign cfg.jwt_secret (env.uuid_string account.id) account.role expires issued
        ≡ some token
    pub answered : response ≡ token_response 201 token account

  respond_token-Same : (status : ℕ) (user : User) → Keeps Same (respond_token env cfg status user)
  unfolding respond_token generate_token
  respond_token-Same status user = search (keeps_rules, Same-order) depth 14

  -- The account that was made.
  account-ok :
      (email password : String) (w w' : World) (user : User)
      → Returns (create_account env cfg email password) w user w'
      → (id : ℕ) × (now : ℕ) × (hash : String) × (any (user_email_is email) w.db.users ≡ false)
        × (user ≡ new_user id now email hash (role_for env cfg email))
        × (w'.db.users ≡ w.db.users ++ user ∷ [])
  unfolding create_account hash_password write call
  account-ok email password w w' user h =
      let (hashed, w1, first, h1) = bind-ok _ _ w w' user h in
      let (hash, is_some, h2) = or_throw-ok hashed _ _ w1 w' user h1 in
      let (reply, w2, wrote, h3) = bind-ok _ _ w1 w' user h2 in
      let (is_done, same) = created-ok reply user w2 w' h3 in
      let q =
        create_user (env.new_uuid w1.calls) (env.db_now w1.calls) email hash
          (role_for env cfg email) in
      let made : (q w1.db).0 ≡ done user = ground arith in
      let left : w2.db ≡ (q w1.db).1 = ground arith in
      let before : w1.db ≡ w.db = ground arith in
      let (fresh, is_new, stored) =
        inserted (env.new_uuid w1.calls) (env.db_now w1.calls) email hash (role_for env cfg email)
          w1.db user made in
      (
        env.new_uuid w1.calls,
        env.db_now w1.calls,
        hash,
        rw (← before) fresh,
        is_new,
        rw (same, left) (stored ∙ ap (λ (d : Database). d.users ++ user ∷ []) before),
      )

  -- When `Register` succeeds, the email of the request has a text without spaces and @ on each side
  -- of one @, the second with a point inside, and was no account's before; one account with it was
  -- added, not banned, an admin's for the configured email and a user's for any other; and the answer holds a token that was signed for its id and role.
  pub register-IsRegistered :
      (r : Request) (w w' : World) (response : Response)
      → Returns (register env cfg r) w response w'
      → IsRegistered r w.db w'.db response
  unfolding register
  register-IsRegistered r w w' response h =
      let (form, sent, h1) = or_throw-ok r.body _ _ w w' response h in
      let (given, h2) = throw_if-ok _ _ _ w w' response h1 in
      let (invalid, h3) = throw_if-ok _ _ _ w w' response h2 in
      let (short, h4) = throw_if-ok _ _ _ w w' response h3 in
      let (account, w1, made, h5) = bind-ok _ _ w w' response h4 in
      let (id, now, hash, fresh, is_new, stored) =
        account-ok form.email form.password w w1 account made in
      let (token, expires, issued, signed, answered) =
        respond_token-ok env cfg 201 account w1 w' response h5 in
      let same : w1.db ≡ w'.db =
        (respond_token-Same 201 account).at w1 ∙ ap (λ (p : Result Response × World). p.1.db) h5 in
      record {
        form = form;
        account = account;
        token = token;
        expires = expires;
        issued = issued;
        sent = sent;
        valid = is_email-IsEmail (codes form.email) (unnegated env cfg _ invalid);
        fresh = fresh;
        email = ap (λ (u : User). u.email) is_new;
        admin = λ e. ap (λ (u : User). u.role) is_new ∙ role_for-admin form.email e;
        user = λ e. ap (λ (u : User). u.role) is_new ∙ role_for-user form.email e;
        not_banned = ap (λ (u : User). u.banned) is_new;
        stored = ap (λ (d : Database). d.users) (sym same) ∙ stored;
        signed = signed;
        answered = answered;
      }
