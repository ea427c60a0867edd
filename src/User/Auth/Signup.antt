-- ===== src/User/Auth/Signup.antt =====
-- Signup of auth_handler.go. The hash of a password with a salt is a
-- parameter. The answer that the email is taken never comes from the statement that creates a user.
pub mod Accounts
use aipx.Prelude.{
  String, eq_refl, Bool, true, false, Option, none, some, List, [], ◌∷◌, ◌++◌, ◌≡◌, refl,
  Bool-cases, Option-cases, inl, inr,
}
use aipx.Prelude.Text.{codes}
use aipx.User.Rows.{find, find-append}
use aipx.User.Password.{Weakness, validate_password_strength}
use aipx.User.Accounts.{
  User, user_found, user_missing, user_failed, get_user_by_email, has_id, has_email, create_user,
  WriteResult, written, no_row, write_failed,
}
use aipx.User.Tokens.{create_refresh_token}
use aipx.User.Auth.{
  JwtManager, VerifyResult, verified, LoginRequest, Body, malformed, refused, request, Reply,
  invalid_body, validation_failed, internal_error, UserDb, AuthEnv, store_token, issue_tokens,
  login_user, login, new_token,
}

pub record SignupRequest : Type 0 where
  pub email : String
  pub password : String
  pub name : String

pub data SignupReply : Type 0 where
  weak_password : Weakness → SignupReply
  user_exists : SignupReply
  replied : Reply → SignupReply

-- Beside what a login meets: whether the statement that creates the user reaches the database, the
-- salt, if there is randomness for one, and the id that the database makes for the user.
pub record SignupEnv : Type 0 where
  pub auth : AuthEnv
  pub create_up : Bool
  pub salt : Option String
  pub new_user_id : String

abbrev pub new_user : SignupRequest → String → User
new_user req password_hash = record {
  id = "";
  email = req.email;
  password_hash = password_hash;
  name = req.name;
  is_active = true;
  email_verified = false;
  created_at = 0;
  updated_at = 0;
}

module _ (m : JwtManager) (digest : String → String) (verify : String → String → VerifyResult)
    (hash : String → String → String) where
  -- `Signup` once the password is hashed.
  unfoldable pub create_account : SignupEnv → SignupRequest → String → UserDb → SignupReply × UserDb
  unfolding create_user
  create_account env req password_hash db =
      let (result, user, users) =
        create_user env.create_up env.auth.db_now env.new_user_id (new_user req password_hash)
          db.users in
      elim result [
        | written ↦
            let done = issue_tokens m digest verify env.auth user (record db { users = users }) in
            (replied done.0, done.1)
        | _ ↦ (replied internal_error, record db { users = users })
      ]

  -- `Signup` once the password is strong enough.
  unfoldable pub signup_user : SignupEnv → SignupRequest → UserDb → SignupReply × UserDb
  unfolding create_account
  signup_user env req db = elim (get_user_by_email env.auth.first_up req.email db.users) [
    | user_found u ↦ (user_exists, db)
    | user_failed ↦ (replied internal_error, db)
    | user_missing ↦ elim env.salt [
      | none ↦ (replied internal_error, db)
      | some salt ↦ create_account env req (hash salt req.password) db
    ]
  ]

  -- `Signup`
  unfoldable pub signup : SignupEnv → Body SignupRequest → UserDb → SignupReply × UserDb
  unfolding signup_user
  signup env malformed db = (replied invalid_body, db)
  signup env refused db = (replied validation_failed, db)
  signup env (request req) db = elim (validate_password_strength (codes req.password)) [
    | some w ↦ (weak_password w, db)
    | none ↦ signup_user env req db
  ]
