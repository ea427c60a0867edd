-- ===== src/User/Auth/Signup/Accounts.antt =====
-- What a sign-up leaves behind, and the requests that follow it.
use aipx.Prelude.{
  String, eq_refl, true, none, some, List, [], ◌∷◌, ◌++◌, ◌≡◌, refl, Bool-cases, Option-cases, inl,
  inr,
}
use aipx.Prelude.Text.{codes}
use aipx.User.Rows.{find, find-append}
use aipx.User.Password.{validate_password_strength}
use aipx.User.Accounts.{
  User, user_found, get_user_by_email, has_id, has_email, create_user, WriteResult, written, no_row,
  write_failed,
}
use aipx.User.Tokens.{create_refresh_token}
use aipx.User.Auth.{
  JwtManager, VerifyResult, verified, LoginRequest, request, UserDb, AuthEnv, store_token,
  issue_tokens, login_user, login, new_token,
}
use aipx.User.Auth.Signup.{
  SignupRequest, user_exists, SignupEnv, new_user, create_account, signup_user, signup,
}

module _ (m : JwtManager) (digest : String → String) (verify : String → String → VerifyResult)
    (hash : String → String → String) where
  -- The user that is stored.
  abbrev pub account : SignupEnv → SignupRequest → String → User
  account env req salt = record (new_user req (hash salt req.password)) {
    id = env.new_user_id;
    created_at = env.auth.db_now;
    updated_at = env.auth.db_now;
  }

  store_token_users :
      (env : AuthEnv) (user : User) (token : String) (db : UserDb)
      → (store_token m digest verify env user token db).1.users ≡ db.users
  unfolding store_token
  store_token_users env user token db =
      go
        (create_refresh_token env.second_up env.db_now env.new_id
          (new_token m digest verify env token user) db.tokens).0
        refl
    where
      go :
          (w : WriteResult)
          → (create_refresh_token env.second_up env.db_now env.new_id
              (new_token m digest verify env token user)
              db.tokens).0
            ≡ w
          → (store_token m digest verify env user token db).1.users ≡ db.users
      go written e = rw (e, store_token) refl
      go no_row e = rw (e, store_token) refl
      go write_failed e = rw (e, store_token) refl

  issue_tokens_users :
      (env : AuthEnv) (user : User) (db : UserDb)
      → (issue_tokens m digest verify env user db).1.users ≡ db.users
  unfolding issue_tokens
  issue_tokens_users env user db = elim (Bool-cases env.sign_up) [
    | inr s ↦ rw (s, issue_tokens) refl
    | inl s ↦ elim (Option-cases env.random) [
      | inl r ↦ rw (s, issue_tokens, r) refl
      | inr (token, r) ↦ rw (s, issue_tokens, r) (store_token_users env user token db)
    ]
  ]

  create_new_user :
      (env : SignupEnv) (req : SignupRequest) (password_hash : String) (users : List User)
      → env.create_up ≡ true
      → find (has_id env.new_user_id) users ≡ none
      → find (has_email req.email) users ≡ none
      → create_user env.create_up env.auth.db_now env.new_user_id (new_user req password_hash) users
        ≡ (
          written,
          record (new_user req password_hash) {
            id = env.new_user_id;
            created_at = env.auth.db_now;
            updated_at = env.auth.db_now;
          },
          users
              ++ record (new_user req password_hash) {
                id = env.new_user_id;
                created_at = env.auth.db_now;
                updated_at = env.auth.db_now;
              }
                ∷ [],
        )
  unfolding create_user
  create_new_user env req password_hash users up id email = rw (up, create_user, id, email) refl

  -- The users after a sign-up that has got as far as the creation of the account.
  signup_users :
      (env : SignupEnv) (req : SignupRequest) (salt : String) (db : UserDb)
      → validate_password_strength (codes req.password) ≡ none
      → env.auth.first_up ≡ true
      → env.create_up ≡ true
      → env.salt ≡ some salt
      → find (has_id env.new_user_id) db.users ≡ none
      → find (has_email req.email) db.users ≡ none
      → (signup m digest verify hash env (request req) db).1.users
        ≡ db.users ++ account env req salt ∷ []
  unfolding signup signup_user create_account get_user_by_email
  signup_users env req salt db strong up create salted id email =
      let made = create_new_user env req (hash salt req.password) db.users create id email in
      rw (signup, strong)
        (rw (signup_user, up, email)
          (rw (salted, create_account, made)
            (rw made (
              issue_tokens_users env.auth (account env req salt)
                (record db { users = db.users ++ account env req salt ∷ [] })))))

  get_account :
      (env : SignupEnv) (req : SignupRequest) (salt : String) (users : List User)
      → find (has_email req.email) users ≡ none
      → get_user_by_email true req.email (users ++ account env req salt ∷ [])
        ≡ user_found (account env req salt)
  unfolding get_user_by_email
  get_account env req salt users email =
      rw (find-append (has_email req.email) users (account env req salt) email (eq_refl req.email))
        refl

  login_account :
      (later : AuthEnv) (req : LoginRequest) (user : User) (db : UserDb)
      → later.first_up ≡ true
      → get_user_by_email true req.email db.users ≡ user_found user
      → user.is_active ≡ true
      → verify req.password user.password_hash ≡ verified
      → login m digest verify later (request req) db ≡ issue_tokens m digest verify later user db
  unfolding login login_user
  login_account later req user db up there active right =
      rw (up, there, login) (rw (login_user, right, active) refl)

  signup_again :
      (env : SignupEnv) (req : SignupRequest) (user : User) (db : UserDb)
      → validate_password_strength (codes req.password) ≡ none
      → env.auth.first_up ≡ true
      → get_user_by_email true req.email db.users ≡ user_found user
      → signup m digest verify hash env (request req) db ≡ (user_exists, db)
  unfolding signup signup_user
  signup_again env req user db strong up there =
      rw (signup, strong) (rw (signup_user, up, there) refl)

  -- Once a sign-up has got as far as the creation of its account, whatever it answers: with a strong
  -- password, an email and an id that no user had, the first two statements of the sign-up and the
  -- first one of each later request reaching the database, and a salt; then a login with that email
  -- and password goes on to the tokens of the account, where the check of a password accepts the
  -- hash of it, and another sign-up with a strong password for that email is told that the user
  -- exists.
  pub login-signup :
      (env env' : SignupEnv) (later : AuthEnv) (req req' : SignupRequest) (salt : String)
      (db : UserDb)
      → validate_password_strength (codes req.password) ≡ none
      → validate_password_strength (codes req'.password) ≡ none
      → req'.email ≡ req.email
      → env.auth.first_up ≡ true
      → env.create_up ≡ true
      → env.salt ≡ some salt
      → env'.auth.first_up ≡ true
      → later.first_up ≡ true
      → find (has_id env.new_user_id) db.users ≡ none
      → find (has_email req.email) db.users ≡ none
      → verify req.password (hash salt req.password) ≡ verified
      → let db' = (signup m digest verify hash env (request req) db).1 in
        (login m digest verify later
            (request (record { email = req.email; password = req.password }))
            db'
          ≡ issue_tokens m digest verify later (account env req salt) db')
        × (signup m digest verify hash env' (request req') db' ≡ (user_exists, db'))
  login-signup env env' later req req' salt db strong strong' same up create salted up' up'' id
        email right =
      let users = signup_users env req salt db strong up create salted id email in
      let db' = (signup m digest verify hash env (request req) db).1 in
      let there : get_user_by_email true req.email db'.users ≡ user_found (account env req salt) =
        rw users (get_account env req salt db.users email) in
      (
        login_account later (record { email = req.email; password = req.password })
            (account env req salt) db' up'' there refl right,
        signup_again env' req' (account env req salt) db' strong' up' (rw same there),
      )
