-- ===== src/User/Auth.antt =====
-- services/user-service/internal/handlers/auth_handler.go: login, refresh and logout, with the claims
-- of internal/auth/jwt.go. The decoding of JSON, the validator, the signature, the randomness, SHA-256
-- and the check of a password are parameters.
pub mod Dead
pub mod Unique
pub mod Logins
pub mod Logouts
pub mod Final
pub mod Sessions
pub mod Signup
mod Tests
use aipx.Prelude.{ℕ, ◌+◌, String, Bool, true, false, Option, none, some, List, if◌then◌else◌}
use aipx.User.Accounts.{
  User, UserResponse, to_response, UserResult, user_found, user_missing, user_failed,
  get_user_by_id, get_user_by_email, WriteResult, written, no_row, write_failed,
}
use aipx.User.Tokens.{
  RefreshToken, TokenResult, token_found, token_missing, token_expired, token_revoked, token_failed,
  get_refresh_token_by_hash, create_refresh_token, revoke_token,
}

-- `Claims`, with the registered ones.
pub record Claims : Type 0 where
  pub user_id : String
  pub email : String
  pub token_type : String
  pub issuer : String
  pub subject : String
  pub issued_at : ℕ
  pub expires_at : ℕ
  pub not_before : ℕ

-- `JWTManager`, without its secrets.
pub record JwtManager : Type 0 where
  pub access_ttl : ℕ
  pub refresh_ttl : ℕ
  pub issuer : String

-- `GenerateAccessToken`: what is signed.
pub generate_access_token : JwtManager → ℕ → String → String → Claims
generate_access_token m now user_id email = record {
  user_id = user_id;
  email = email;
  token_type = "access";
  issuer = m.issuer;
  subject = user_id;
  issued_at = now;
  expires_at = now + m.access_ttl;
  not_before = now;
}

pub data VerifyResult : Type 0 where
  verified mismatched verify_failed : VerifyResult

pub record LoginRequest : Type 0 where
  pub email : String
  pub password : String

-- A body: one that is no JSON, one that the validator refuses, or a request.
pub data Body (A : Type 0) : Type 0 where
  malformed refused : Body A
  request : A → Body A

pub record AuthResponse : Type 0 where
  pub access_token : Claims
  pub refresh_token : String
  pub user : UserResponse

pub data Reply : Type 0 where
  invalid_body validation_failed invalid_credentials account_inactive internal_error : Reply
  invalid_refresh_token user_not_found logged_out : Reply
  logged_in : AuthResponse → Reply
  refreshed : Claims → Reply

pub record UserDb : Type 0 where
  pub users : List User
  pub tokens : List RefreshToken

-- How the outside answers during one request: whether the first and the second statement reach the
-- database, whether the signature succeeds, the random token if there is one, the id that the
-- database makes, the clocks of the service and of the database, and the client.
pub record AuthEnv : Type 0 where
  pub first_up : Bool
  pub second_up : Bool
  pub sign_up : Bool
  pub random : Option String
  pub new_id : String
  pub now : ℕ
  pub db_now : ℕ
  pub ip_address : String
  pub user_agent : String

module _ (m : JwtManager) (digest : String → String) (verify : String → String → VerifyResult) where
  abbrev pub new_token : AuthEnv → String → User → RefreshToken
  new_token env token user = record {
    id = "";
    user_id = user.id;
    token_hash = digest token;
    expires_at = env.now + m.refresh_ttl;
    created_at = 0;
    revoked_at = none;
    ip_address = env.ip_address;
    user_agent = env.user_agent;
  }

  -- `Login` once the refresh token is there.
  pub store_token : AuthEnv → User → String → UserDb → Reply × UserDb
  store_token env user token db =
      let (result, tokens) =
        create_refresh_token env.second_up env.db_now env.new_id (new_token env token user)
          db.tokens in
      let response : AuthResponse = record {
        access_token = generate_access_token m env.now user.id user.email;
        refresh_token = token;
        user = to_response user;
      } in
      elim result [
        | written ↦ (logged_in response, record db { tokens = tokens })
        | _ ↦ (internal_error, record db { tokens = tokens })
      ]

  -- `Login` once the password is verified.
  pub issue_tokens : AuthEnv → User → UserDb → Reply × UserDb
  unfolding store_token
  issue_tokens env user db =
      if env.sign_up
      then elim env.random [
        | none ↦ (internal_error, db)
        | some token ↦ store_token env user token db
      ]
      else (internal_error, db)

  -- `Login` once the user is found.
  pub login_user : AuthEnv → LoginRequest → User → UserDb → Reply × UserDb
  unfolding issue_tokens
  login_user env req user db =
      let tried : Reply × UserDb = elim (verify req.password user.password_hash) [
        | verified ↦ issue_tokens env user db
        | mismatched ↦ (invalid_credentials, db)
        | verify_failed ↦ (internal_error, db)
      ] in
      if user.is_active then tried else (account_inactive, db)

  -- `Login`
  pub login : AuthEnv → Body LoginRequest → UserDb → Reply × UserDb
  unfolding login_user
  login env malformed db = (invalid_body, db)
  login env refused db = (validation_failed, db)
  login env (request req) db = elim (get_user_by_email env.first_up req.email db.users) [
    | user_found user ↦ login_user env req user db
    | user_missing ↦ (invalid_credentials, db)
    | user_failed ↦ (internal_error, db)
  ]

  -- `Refresh` once the token is found.
  pub refresh_user : AuthEnv → RefreshToken → UserDb → Reply
  refresh_user env t db = elim (get_user_by_id env.second_up t.user_id db.users) [
    | user_missing ↦ user_not_found
    | user_failed ↦ internal_error
    | user_found user ↦
        if env.sign_up
        then refreshed (generate_access_token m env.now user.id user.email)
        else internal_error
  ]

  -- `Refresh`; it changes nothing.
  pub refresh : AuthEnv → Body String → UserDb → Reply
  unfolding refresh_user
  refresh env malformed db = invalid_body
  refresh env refused db = validation_failed
  refresh env (request token) db =
      elim (get_refresh_token_by_hash env.first_up env.now (digest token) db.tokens) [
        | token_found t ↦ refresh_user env t db
        | token_failed ↦ internal_error
        | _ ↦ invalid_refresh_token
      ]

  -- `Logout` once the token is found.
  pub revoke_found : AuthEnv → RefreshToken → UserDb → Reply × UserDb
  revoke_found env t db =
      let (result, tokens) = revoke_token env.second_up env.db_now t.id db.tokens in
      elim result [
        | written ↦ (logged_out, record db { tokens = tokens })
        | _ ↦ (internal_error, record db { tokens = tokens })
      ]

  -- `Logout`, of a body that is none where it is no JSON; it does not call the validator.
  pub logout : AuthEnv → Option String → UserDb → Reply × UserDb
  unfolding revoke_found
  logout env none db = (invalid_body, db)
  logout env (some token) db =
      elim (get_refresh_token_by_hash env.first_up env.now (digest token) db.tokens) [
        | token_found t ↦ revoke_found env t db
        | token_missing ↦ (logged_out, db)
        | _ ↦ (internal_error, db)
      ]
