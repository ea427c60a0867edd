-- ===== src/User/Auth/Final.antt =====
-- What a logout of auth_handler.go is worth afterwards.
use aipx.Prelude.{
  ℕ, String, str_eq, Bool, true, false, ◌&&◌, not, Option, none, some, List, [], ◌∷◌, ◌≡◌, ◌≢◌,
  refl,
}
use aipx.User.Auth.Dead.{IsDead, IsUnique, more_revoked-IsDead, dead_not_found}
use aipx.User.Auth.Logins.{IsFresh, login-IsDead}
use aipx.User.Auth.Logouts.{logout-IsDead}
use aipx.User.Rows.{All-delete_where}
use aipx.User.Accounts.{delete_user, update_password, WriteResult, written}
use aipx.User.Tokens.{
  RefreshToken, TokenResult, token_found, token_missing, token_expired, token_revoked, token_failed,
  get_refresh_token_by_hash, revoke_token, revoke_user_tokens, delete_expired_tokens, is_revoked,
}
use aipx.User.Auth.{
  JwtManager, VerifyResult, LoginRequest, Body, request, Reply, refreshed, logged_out, UserDb,
  AuthEnv, Claims, login, refresh, revoke_found, logout,
}

-- What happens to the database after a logout: requests of any users, and the statements that revoke
-- a user's tokens, clean up, remove a user and change a password.
pub data Event : Type 0 where
  on_login : AuthEnv → Body LoginRequest → Event
  on_refresh : AuthEnv → Body String → Event
  on_logout : AuthEnv → Option String → Event
  on_revoke_user : Bool → ℕ → String → Event
  on_cleanup : Bool → ℕ → ℕ → Event
  on_delete_user : Bool → ℕ → String → Event
  on_password : Bool → ℕ → String → String → Event

module _ (m : JwtManager) (digest : String → String) (verify : String → String → VerifyResult) where
  pub after_event : Event → UserDb → UserDb
  after_event (on_login env body) db = (login m digest verify env body db).1
  after_event (on_refresh env body) db = db
  after_event (on_logout env body) db = (logout m digest verify env body db).1
  after_event (on_revoke_user up now id) db = record db {
    tokens = (revoke_user_tokens up now id db.tokens).1;
  }
  after_event (on_cleanup up now older_than) db = record db {
    tokens = (delete_expired_tokens up now older_than db.tokens).1;
  }
  after_event (on_delete_user up now id) db = record db {
    users = (delete_user up now id db.users).1;
  }
  after_event (on_password up now id hash) db = record db {
    users = (update_password up now id hash db.users).1;
  }

  pub after_events : List Event → UserDb → UserDb
  after_events [] db = db
  after_events (e ∷ es) db = after_events es (after_event e db)

  -- Each login among the events makes a token with another digest.
  abbrev pub AllFresh : String → List Event → Type 0
  AllFresh h [] = Unit
  AllFresh h (on_login env body ∷ es) = IsFresh m digest verify h env × AllFresh h es
  AllFresh h (_ ∷ es) = AllFresh h es

  revoke_token_keeps-IsDead :
      (up : Bool) (now : ℕ) (id h : String) (ts : List RefreshToken)
      → IsDead h ts
      → IsDead h (revoke_token up now id ts).1
  unfolding revoke_token
  revoke_token_keeps-IsDead false now id h ts d = d
  revoke_token_keeps-IsDead true now id h ts d =
      more_revoked-IsDead h (λ (t : RefreshToken). str_eq t.id id && not (is_revoked t)) now ts d

  revoke_found_keeps-IsDead :
      (env : AuthEnv) (t : RefreshToken) (h : String) (db : UserDb)
      → IsDead h db.tokens
      → IsDead h (revoke_found m digest verify env t db).1.tokens
  unfolding revoke_found
  revoke_found_keeps-IsDead env t h db d =
      go (revoke_token env.second_up env.db_now t.id db.tokens).0 refl
    where
      after : IsDead h (revoke_token env.second_up env.db_now t.id db.tokens).1
      after = revoke_token_keeps-IsDead env.second_up env.db_now t.id h db.tokens d

      go :
          (r : WriteResult)
          → (revoke_token env.second_up env.db_now t.id db.tokens).0 ≡ r
          → IsDead h (revoke_found m digest verify env t db).1.tokens
      go written e = rw (e, revoke_found) after
      go WriteResult.no_row e = rw (e, revoke_found) after
      go WriteResult.write_failed e = rw (e, revoke_found) after

  logout_keeps-IsDead :
      (env : AuthEnv) (body : Option String) (h : String) (db : UserDb)
      → IsDead h db.tokens
      → IsDead h (logout m digest verify env body db).1.tokens
  unfolding logout
  logout_keeps-IsDead env none h db d = d
  logout_keeps-IsDead env (some token) h db d =
      go (get_refresh_token_by_hash env.first_up env.now (digest token) db.tokens) refl
    where
      go :
          (r : TokenResult)
          → get_refresh_token_by_hash env.first_up env.now (digest token) db.tokens ≡ r
          → IsDead h (logout m digest verify env (some token) db).1.tokens
      go (token_found t) e = rw (e, logout) (revoke_found_keeps-IsDead env t h db d)
      go token_missing e = rw (e, logout) d
      go token_expired e = rw (e, logout) d
      go token_revoked e = rw (e, logout) d
      go token_failed e = rw (e, logout) d

  revoke_user_keeps-IsDead :
      (up : Bool) (now : ℕ) (id h : String) (ts : List RefreshToken)
      → IsDead h ts
      → IsDead h (revoke_user_tokens up now id ts).1
  unfolding revoke_user_tokens
  revoke_user_keeps-IsDead false now id h ts d = d
  revoke_user_keeps-IsDead true now id h ts d =
      more_revoked-IsDead h (λ (t : RefreshToken). str_eq t.user_id id && not (is_revoked t)) now ts
        d

  cleanup_keeps-IsDead :
      (up : Bool) (now older_than : ℕ) (h : String) (ts : List RefreshToken)
      → IsDead h ts
      → IsDead h (delete_expired_tokens up now older_than ts).1
  unfolding delete_expired_tokens
  cleanup_keeps-IsDead false now older_than h ts d = d
  cleanup_keeps-IsDead true now older_than h ts d =
      All-delete_where (λ (x : RefreshToken). x.token_hash ≡ h → is_revoked x ≡ true) _ ts d

  events-IsDead :
      (es : List Event) (h : String) (db : UserDb)
      → AllFresh h es
      → IsDead h db.tokens
      → IsDead h (after_events es db).tokens
  unfolding after_events after_event
  events-IsDead [] h db f d = d
  events-IsDead (on_login env body ∷ es) h db f d =
      events-IsDead es h (login m digest verify env body db).1 f.1
        (login-IsDead m digest verify env body h db f.0 d)
  events-IsDead (on_refresh env body ∷ es) h db f d = events-IsDead es h db f d
  events-IsDead (on_logout env body ∷ es) h db f d =
      events-IsDead es h (logout m digest verify env body db).1 f
        (logout_keeps-IsDead env body h db d)
  events-IsDead (on_revoke_user up now id ∷ es) h db f d =
      events-IsDead es h (after_event (on_revoke_user up now id) db) f
        (revoke_user_keeps-IsDead up now id h db.tokens d)
  events-IsDead (on_cleanup up now older_than ∷ es) h db f d =
      events-IsDead es h (after_event (on_cleanup up now older_than) db) f
        (cleanup_keeps-IsDead up now older_than h db.tokens d)
  events-IsDead (on_delete_user up now id ∷ es) h db f d =
      events-IsDead es h (after_event (on_delete_user up now id) db) f d
  events-IsDead (on_password up now id hash ∷ es) h db f d =
      events-IsDead es h (after_event (on_password up now id hash) db) f d

  dead_not_refreshed :
      (env : AuthEnv) (token : String) (db : UserDb) (c : Claims)
      → IsDead (digest token) db.tokens
      → refresh m digest verify env (request token) db ≢ refreshed c
  unfolding refresh
  dead_not_refreshed env token db c d h =
      go (get_refresh_token_by_hash env.first_up env.now (digest token) db.tokens) refl
    where
      invalid : Reply.invalid_refresh_token ≡ refreshed c → ⊥
      invalid h = cc

      error : Reply.internal_error ≡ refreshed c → ⊥
      error h = cc

      go :
          (r : TokenResult)
          → get_refresh_token_by_hash env.first_up env.now (digest token) db.tokens ≡ r
          → ⊥
      go (token_found t) e = dead_not_found env.first_up env.now (digest token) db.tokens t d e
      go token_missing e = invalid (rw (e, refresh) at h)
      go token_expired e = invalid (rw (e, refresh) at h)
      go token_revoked e = invalid (rw (e, refresh) at h)
      go token_failed e = error (rw (e, refresh) at h)

  -- Once a logout has reported success, the hash of the token being UNIQUE in the table, the refresh
  -- token gets no access token any more: not at any time, and not after any further logins with other
  -- random tokens, refreshes, logouts, revocations, clean-ups and changes to users.
  pub logout_is_final :
      (env env' : AuthEnv) (token : String) (db : UserDb) (es : List Event) (c : Claims)
      → IsUnique (digest token) db.tokens
      → AllFresh (digest token) es
      → (logout m digest verify env (some token) db).0 ≡ logged_out
      → refresh m digest verify env'
          (request token)
          (after_events es (logout m digest verify env (some token) db).1)
        ≢ refreshed c
  logout_is_final env env' token db es c unique fresh out =
      dead_not_refreshed env' token (after_events es (logout m digest verify env (some token) db).1)
        c
        (events-IsDead es (digest token) (logout m digest verify env (some token) db).1 fresh
          (logout-IsDead m digest verify env token db unique out))
