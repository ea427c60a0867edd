-- ===== src/User/Auth/Sessions.antt =====
-- The life of a session in auth_handler.go, from login over refresh to logout.
use aipx.Prelude.{
  ℕ, ◌+◌, ◌≤◌, ◌<◌, String, eq_refl, Bool, true, false, none, some, List, [], ◌∷◌, ◌++◌,
  if◌then◌else◌, ◌≡◌, refl, ◌∙◌, arith, lt→ltb,
}
use aipx.User.Rows.{find, find-append, find-update_where}
use aipx.User.Accounts.{
  User, user_missing, delete_user, to_response, user_found, get_user_by_id, get_user_by_email,
  is_live, written,
}
use aipx.User.Tokens.{
  RefreshToken, token_found, get_refresh_token_by_hash, create_refresh_token, has_hash,
}
use aipx.User.Auth.{
  JwtManager, VerifyResult, verified, LoginRequest, request, AuthResponse, logged_in, refreshed,
  user_not_found, UserDb, AuthEnv, generate_access_token, new_token, store_token, issue_tokens,
  login_user, login, refresh_user, refresh,
}

module _ (m : JwtManager) (digest : String → String) (verify : String → String → VerifyResult) where
  -- The row that a login stores.
  abbrev pub stored_token : AuthEnv → String → User → RefreshToken
  stored_token env token user = record (new_token m digest verify env token user) {
    id = env.new_id;
    created_at = env.db_now;
  }

  create_new :
      (env : AuthEnv) (token : String) (user : User) (ts : List RefreshToken)
      → env.second_up ≡ true
      → env.db_now < env.now + m.refresh_ttl
      → find (has_hash (digest token)) ts ≡ none
      → create_refresh_token env.second_up env.db_now env.new_id
          (new_token m digest verify env token user)
          ts
        ≡ (written, ts ++ stored_token env token user ∷ [])
  unfolding create_refresh_token
  create_new env token user ts up later fresh =
      rw (up, fresh, lt→ltb env.db_now (env.now + m.refresh_ttl) later)

  get_new :
      (env : AuthEnv) (now : ℕ) (token : String) (user : User) (ts : List RefreshToken)
      → now ≤ env.now + m.refresh_ttl
      → find (has_hash (digest token)) ts ≡ none
      → get_refresh_token_by_hash true now (digest token) (ts ++ stored_token env token user ∷ [])
        ≡ token_found (stored_token env token user)
  unfolding get_refresh_token_by_hash
  get_new env now token user ts early fresh =
      rw
        (find-append (has_hash (digest token)) ts (stored_token env token user) fresh
          (eq_refl (digest token)))
        (ground arith)

  found_is_active :
      (id : String) (users : List User) (u : User)
      → find (is_live id) users ≡ some u
      → get_user_by_id true id users ≡ user_found u
  unfolding get_user_by_id
  found_is_active id users u h = rw h

  if_true {ℓ} : {A : Type ℓ} (b : Bool) (x y : A) → b ≡ true → (if b then x else y) ≡ x
  if_true b x y e = rw e

  abbrev pub login_answer : AuthEnv → User → String → AuthResponse
  login_answer env user token = record {
    access_token = generate_access_token m env.now user.id user.email;
    refresh_token = token;
    user = to_response user;
  }

  login_user_done :
      (env : AuthEnv) (req : LoginRequest) (user : User) (token : String) (db : UserDb)
      → env.second_up ≡ true
      → env.sign_up ≡ true
      → env.random ≡ some token
      → user.is_active ≡ true
      → verify req.password user.password_hash ≡ verified
      → find (has_hash (digest token)) db.tokens ≡ none
      → env.db_now < env.now + m.refresh_ttl
      → login_user m digest verify env req user db ≡ (
        logged_in (login_answer env user token),
        record db { tokens = db.tokens ++ stored_token env token user ∷ [] },
      )
  unfolding login_user issue_tokens store_token
  login_user_done env req user token db up sign rand active right fresh later =
      if_true user.is_active _ _ active
      ∙ rw right (
          rw (sign, rand, issue_tokens)
            (rw (create_new env token user db.tokens up later fresh, store_token)
              (rw (create_new env token user db.tokens up later fresh))))

  -- A user who is active and gives the right password, every part being up and the random token
  -- being new, is logged in; and the refresh token of the answer gets an access token for the same
  -- user at any time up to the end of its life.
  pub refresh-login :
      (env env' : AuthEnv) (req : LoginRequest) (user : User) (token : String) (db : UserDb)
      → env.first_up ≡ true
      → env.second_up ≡ true
      → env.sign_up ≡ true
      → env.random ≡ some token
      → env'.first_up ≡ true
      → env'.second_up ≡ true
      → env'.sign_up ≡ true
      → get_user_by_email true req.email db.users ≡ user_found user
      → find (is_live user.id) db.users ≡ some user
      → user.is_active ≡ true
      → verify req.password user.password_hash ≡ verified
      → find (has_hash (digest token)) db.tokens ≡ none
      → env.db_now < env.now + m.refresh_ttl
      → env'.now ≤ env.now + m.refresh_ttl
      → let (reply, db') = login m digest verify env (request req) db in
        (reply ≡ logged_in (login_answer env user token))
        × (refresh m digest verify env' (request token) db'
            ≡ refreshed (generate_access_token m env'.now user.id user.email))
  unfolding login refresh refresh_user
  refresh-login env env' req user token db up up' sign rand up1 up2 sign' by_email by_id active
        right fresh later early =
      rw (up, by_email, login)
        (rw (login_user_done env req user token db up' sign rand active right fresh later) (
          refl,
          rw (up1, get_new env env'.now token user db.tokens early fresh, refresh)
              (rw (up2, found_is_active user.id db.users user by_id, refresh_user) (rw sign')),
        ))

  deleted_not_live :
      (now : ℕ) (id : String) (users : List User)
      → get_user_by_id true id (delete_user true now id users).1 ≡ user_missing
  unfolding delete_user get_user_by_id
  deleted_not_live now id users = rw (
      find-update_where (is_live id) (λ u. record u { is_active = false; updated_at = now }) users
        (λ u live. gone u))
    where
      gone : (u : User) → is_live id (record u { is_active = false; updated_at = now }) ≡ false
      gone u = ground arith

  -- The refresh tokens of a user whom `DeleteUser` has removed stay in the table as they are, but get
  -- no access token any more: the answer is that there is no such user.
  pub refresh-delete_user :
      (env : AuthEnv) (token : String) (t : RefreshToken) (db : UserDb) (now : ℕ)
      → env.first_up ≡ true
      → env.second_up ≡ true
      → get_refresh_token_by_hash true env.now (digest token) db.tokens ≡ token_found t
      → refresh m digest verify env
          (request token)
          (record db { users = (delete_user true now t.user_id db.users).1 })
        ≡ user_not_found
  unfolding refresh refresh_user
  refresh-delete_user env token t db now up up' there =
      rw (up, there, refresh) (rw (up', deleted_not_live now t.user_id db.users, refresh_user))
