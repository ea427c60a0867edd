-- ===== src/User/Auth/Tests.antt =====
-- The sessions' theorems at concrete users and tokens.
use aipx.Prelude.{
  ℕ, String, str_eq, true, false, Option, none, some, List, [], ◌∷◌, ◌≡◌, ◌≢◌, ◌∙◌, refl, arith,
  eq_iff, if◌then◌else◌,
}
use aipx.User.Rows.{find}
use aipx.User.Accounts.{User, get_user_by_email, user_found, is_live, delete_user}
use aipx.User.Tokens.{RefreshToken, has_hash, get_refresh_token_by_hash, token_found, revoke_token}
use aipx.User.Auth.{
  JwtManager, VerifyResult, verified, mismatched, LoginRequest, request, logged_in, refreshed,
  user_not_found, logged_out, UserDb, AuthEnv, login, refresh, logout, generate_access_token,
  revoke_found, issue_tokens,
}
use aipx.User.Password.{validate_password_strength}
use aipx.User.Auth.Signup.{SignupEnv, SignupRequest, user_exists, signup}
use aipx.User.Auth.Signup.Accounts.{account, login-signup}
use aipx.User.Auth.Final.{Event, on_login, on_cleanup, after_events, AllFresh, logout_is_final}
use aipx.User.Auth.Sessions.{login_answer, refresh-login, refresh-delete_user}

abbrev manager : JwtManager
manager = record { access_ttl = 900; refresh_ttl = 10000; issuer = "aipx" }

abbrev same_digest : String → String
same_digest s = s

abbrev check_password : String → String → VerifyResult
check_password p h = if str_eq p h then verified else mismatched

abbrev kim : User
kim = record {
  id = "u1";
  email = "kim@aipx.io";
  password_hash = "secret";
  name = "Kim";
  is_active = true;
  email_verified = false;
  created_at = 1;
  updated_at = 1;
}

abbrev kims_token : RefreshToken
kims_token = record {
  id = "t1";
  user_id = "u1";
  token_hash = "r1";
  expires_at = 9000;
  created_at = 10;
  revoked_at = none;
  ip_address = "10.0.0.1";
  user_agent = "curl";
}

abbrev db : UserDb
db = record { users = kim ∷ []; tokens = kims_token ∷ [] }

abbrev env_at : ℕ → String → AuthEnv
env_at t random = record {
  first_up = true;
  second_up = true;
  sign_up = true;
  random = some random;
  new_id = "t2";
  now = t;
  db_now = t;
  ip_address = "10.0.0.1";
  user_agent = "curl";
}

abbrev login_request : LoginRequest
login_request = record { email = "kim@aipx.io"; password = "secret" }

kim_by_email : get_user_by_email true "kim@aipx.io" db.users ≡ user_found kim
unfolding get_user_by_email find
kim_by_email = refl

kim_by_id : find (is_live "u1") db.users ≡ some kim
unfolding find
kim_by_id = refl

r2_is_new : find (has_hash "r2") db.tokens ≡ none
unfolding find
r2_is_new = refl

r1_is_there : get_refresh_token_by_hash true 200 "r1" db.tokens ≡ token_found kims_token
unfolding get_refresh_token_by_hash find
r1_is_there = refl

logs_out :
    (logout manager same_digest check_password (env_at 100 "r2") (some "r1") db).0 ≡ logged_out
unfolding logout revoke_found get_refresh_token_by_hash revoke_token find
logs_out = refl

refresh-login_example :
    let (reply, db') =
      login manager same_digest check_password (env_at 100 "r2") (request login_request) db in
    (reply ≡ logged_in (login_answer manager same_digest check_password (env_at 100 "r2") kim "r2"))
    × (refresh manager same_digest check_password (env_at 500 "r3") (request "r2") db'
        ≡ refreshed (generate_access_token manager 500 "u1" "kim@aipx.io"))
refresh-login_example =
    refresh-login manager same_digest check_password (env_at 100 "r2") (env_at 500 "r3")
      login_request kim "r2" db refl refl refl refl refl refl refl kim_by_email kim_by_id refl refl
      r2_is_new (omega arith) (omega arith)

refresh-delete_user_example :
    refresh manager same_digest check_password
      (env_at 200 "r2")
      (request "r1")
      (record db { users = (delete_user true 150 "u1" db.users).1 })
    ≡ user_not_found
refresh-delete_user_example =
    refresh-delete_user manager same_digest check_password (env_at 200 "r2") "r1" kims_token db 150
      refl refl r1_is_there

abbrev later : List Event
later = on_login (env_at 300 "r2") (request login_request) ∷ on_cleanup true 400 100 ∷ []

apart : (a b : String) → str_eq a b ≡ false → a ≢ b
apart a b h e = ground (arith, eq_iff a b)

later_is_fresh : AllFresh manager same_digest check_password "r1" later
later_is_fresh = (λ token e. fresh token e, tt)
  where
    fresh : (token : String) → ◌≡◌ {A = Option String} (some "r2") (some token) → token ≢ "r1"
    fresh token e h = apart "r2" "r1" refl (injected e ∙ h)
      where
        injected : ◌≡◌ {A = Option String} (some "r2") (some token) → "r2" ≡ token
        injected e = cc

logout_is_final_example :
    refresh manager same_digest check_password (env_at 500 "r3") (request "r1") (
      after_events manager same_digest check_password later
        (logout manager same_digest check_password (env_at 100 "r2") (some "r1") db).1)
    ≢ refreshed (generate_access_token manager 500 "u1" "kim@aipx.io")
logout_is_final_example =
    logout_is_final manager same_digest check_password (env_at 100 "r2") (env_at 500 "r3") "r1" db
      later (generate_access_token manager 500 "u1" "kim@aipx.io") ((λ same. tt), tt) later_is_fresh
      logs_out

abbrev same_hash : String → String → String
same_hash salt password = password

abbrev lee_signs_up : SignupEnv
lee_signs_up = record {
  auth = env_at 100 "r9";
  create_up = true;
  salt = some "s";
  new_user_id = "u2";
}

abbrev lee : SignupRequest
lee = record { email = "lee@aipx.io"; password = "Passw0rd"; name = "Lee" }

login-signup_example :
    let db' =
      (signup manager same_digest check_password same_hash lee_signs_up (request lee) db).1 in
    (login manager same_digest check_password
        (env_at 200 "r10")
        (request (record { email = lee.email; password = lee.password }))
        db'
      ≡ issue_tokens manager same_digest check_password
          (env_at 200 "r10")
          (account manager same_digest check_password same_hash lee_signs_up lee "s")
          db')
    × (signup manager same_digest check_password same_hash lee_signs_up (request lee) db'
        ≡ (user_exists, db'))
unfolding find validate_password_strength
login-signup_example =
    login-signup manager same_digest check_password same_hash lee_signs_up lee_signs_up
      (env_at 200 "r10") lee lee "s" db refl refl refl refl refl refl refl refl refl refl refl
