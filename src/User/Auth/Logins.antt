-- ===== src/User/Auth/Logins.antt =====
-- A login of auth_handler.go revives no revoked row.
use aipx.Prelude.{
  ℕ, String, Bool, true, ◌&&◌, not, ltb, some, List, ◌≡◌, ◌≢◌, refl, arith, inl, inr, Bool-cases,
  Option-cases,
}
use aipx.User.Auth.Dead.{IsDead}
use aipx.User.Rows.{find, is_some, All-append}
use aipx.User.Accounts.{
  User, UserResult, user_found, user_missing, user_failed, WriteResult, written, get_user_by_email,
}
use aipx.User.Tokens.{RefreshToken, create_refresh_token, has_hash, is_revoked}
use aipx.User.Auth.{
  JwtManager, VerifyResult, LoginRequest, Body, malformed, refused, request, UserDb, AuthEnv,
  new_token, store_token, issue_tokens, login_user, login,
}

module _ (m : JwtManager) (digest : String → String) (verify : String → String → VerifyResult) where
  create_refresh_token-IsDead :
      (up : Bool) (now : ℕ) (id h : String) (t : RefreshToken) (ts : List RefreshToken)
      → t.token_hash ≢ h
      → IsDead h ts
      → IsDead h (create_refresh_token up now id t ts).1
  unfolding create_refresh_token
  create_refresh_token-IsDead up now id h t ts differs d =
      elim (Bool-cases
        (up && (ltb now t.expires_at && not (is_some (find (has_hash t.token_hash) ts))))) [
          | inr failed ↦ rw failed d
          | inl ok ↦ rw ok (
              All-append (λ (x : RefreshToken). x.token_hash ≡ h → is_revoked x ≡ true) ts _ d
                ((λ same. absurd (differs same)), tt))
        ]

  -- A login whose random token has another digest.
  abbrev pub IsFresh : String → AuthEnv → Type 0
  IsFresh h env = (token : String) → env.random ≡ some token → digest token ≢ h

  store_token-IsDead :
      (env : AuthEnv) (user : User) (token h : String) (db : UserDb)
      → digest token ≢ h
      → IsDead h db.tokens
      → IsDead h (store_token m digest verify env user token db).1.tokens
  unfolding store_token
  store_token-IsDead env user token h db differs d = go _ refl
    where
      after :
          IsDead h
            (create_refresh_token env.second_up env.db_now env.new_id
              (new_token m digest verify env token user)
              db.tokens).1
      after =
          create_refresh_token-IsDead env.second_up env.db_now env.new_id h
            (new_token m digest verify env token user) db.tokens differs d

      go :
          (r : WriteResult)
          → (create_refresh_token env.second_up env.db_now env.new_id
              (new_token m digest verify env token user)
              db.tokens).0
            ≡ r
          → IsDead h (store_token m digest verify env user token db).1.tokens
      go written e = rw (e, store_token) after
      go WriteResult.no_row e = rw (e, store_token) after
      go WriteResult.write_failed e = rw (e, store_token) after

  issue_tokens-IsDead :
      (env : AuthEnv) (user : User) (h : String) (db : UserDb)
      → IsFresh h env
      → IsDead h db.tokens
      → IsDead h (issue_tokens m digest verify env user db).1.tokens
  unfolding issue_tokens
  issue_tokens-IsDead env user h db fresh d = elim (Bool-cases env.sign_up) [
    | inr down ↦ rw (down, issue_tokens) d
    | inl up ↦ elim (Option-cases env.random) [
      | inl e ↦ rw (up, issue_tokens) (rw e d)
      | inr (token, e) ↦
          rw (up, issue_tokens) (rw e (store_token-IsDead env user token h db (fresh token e) d))
    ]
  ]

  login_user-IsDead :
      (env : AuthEnv) (req : LoginRequest) (user : User) (h : String) (db : UserDb)
      → IsFresh h env
      → IsDead h db.tokens
      → IsDead h (login_user m digest verify env req user db).1.tokens
  unfolding login_user
  login_user-IsDead env req user h db fresh d =
      ground (arith, issue_tokens-IsDead env user h db fresh d)

  pub login-IsDead :
      (env : AuthEnv) (body : Body LoginRequest) (h : String) (db : UserDb)
      → IsFresh h env
      → IsDead h db.tokens
      → IsDead h (login m digest verify env body db).1.tokens
  unfolding login
  login-IsDead env malformed h db fresh d = d
  login-IsDead env refused h db fresh d = d
  login-IsDead env (request req) h db fresh d =
      go (get_user_by_email env.first_up req.email db.users) refl
    where
      go :
          (r : UserResult)
          → get_user_by_email env.first_up req.email db.users ≡ r
          → IsDead h (login m digest verify env (request req) db).1.tokens
      go (user_found user) e = rw (e, login) (login_user-IsDead env req user h db fresh d)
      go user_missing e = rw (e, login) d
      go user_failed e = rw (e, login) d
