-- ===== src/User/Auth/Logouts.antt =====
-- A logout of auth_handler.go that reports success revokes the token.
use aipx.Prelude.{
  String, eq_iff, true, false, some, ◌≡◌, refl, arith, inl, inr, Bool-cases, Option-cases,
}
use aipx.User.Auth.Dead.{IsDead, IsUnique, revoke_token-IsDead}
use aipx.User.Rows.{find, All-mono, find-none}
use aipx.User.Accounts.{WriteResult, written}
use aipx.User.Tokens.{
  RefreshToken, get_refresh_token_by_hash, revoke_token, has_hash, is_expired, is_revoked,
}
use aipx.User.Auth.{
  JwtManager, VerifyResult, Reply, logged_out, UserDb, AuthEnv, revoke_found, logout,
}

module _ (m : JwtManager) (digest : String → String) (verify : String → String → VerifyResult) where
  -- `Logout` that reports success leaves the token dead.
  revoke_found-IsDead :
      (env : AuthEnv) (h : String) (t : RefreshToken) (db : UserDb)
      → IsUnique h db.tokens
      → find (has_hash h) db.tokens ≡ some t
      → (revoke_found m digest verify env t db).0 ≡ logged_out
      → IsDead h (revoke_found m digest verify env t db).1.tokens
  unfolding revoke_found
  revoke_found-IsDead env h t db u e w =
      go (revoke_token env.second_up env.db_now t.id db.tokens).0 refl
    where
      error : Reply.internal_error ≡ logged_out → ⊥
      error h = cc

      go :
          (r : WriteResult)
          → (revoke_token env.second_up env.db_now t.id db.tokens).0 ≡ r
          → IsDead h (revoke_found m digest verify env t db).1.tokens
      go written same =
          rw (same, revoke_found)
            (revoke_token-IsDead env.second_up env.db_now h t db.tokens u e same)
      go WriteResult.no_row same = absurd (error (rw (same, revoke_found) at w))
      go WriteResult.write_failed same = absurd (error (rw (same, revoke_found) at w))

  pub logout-IsDead :
      (env : AuthEnv) (token : String) (db : UserDb)
      → IsUnique (digest token) db.tokens
      → (logout m digest verify env (some token) db).0 ≡ logged_out
      → IsDead (digest token) (logout m digest verify env (some token) db).1.tokens
  unfolding logout get_refresh_token_by_hash
  logout-IsDead env token db u w = elim (Bool-cases env.first_up) [
    | inr down ↦ absurd (error (rw (down, logout) at w))
    | inl up ↦ elim (Option-cases (find (has_hash (digest token)) db.tokens)) [
      | inl missing ↦
          rw (up, logout)
            (rw missing (
              All-mono (λ (x : RefreshToken). has_hash (digest token) x ≡ false)
                (λ (x : RefreshToken). x.token_hash ≡ digest token → is_revoked x ≡ true)
                (λ x other same. absurd (apart x other same)) db.tokens
                (find-none (has_hash (digest token)) db.tokens missing)))
      | inr (x, there) ↦ checked x up there
    ]
  ]
    where
      error : Reply.internal_error ≡ logged_out → ⊥
      error h = cc

      apart :
          (y : RefreshToken) → has_hash (digest token) y ≡ false → y.token_hash ≡ digest token → ⊥
      apart y other same = ground (arith, eq_iff y.token_hash (digest token))

      checked :
          (x : RefreshToken)
          → env.first_up ≡ true
          → find (has_hash (digest token)) db.tokens ≡ some x
          → IsDead (digest token) (logout m digest verify env (some token) db).1.tokens
      checked x up there = elim (Bool-cases (is_expired env.now x)) [
        | inl old ↦ absurd (error (rw old at (rw there at (rw (up, logout) at w))))
        | inr fresh ↦ elim (Bool-cases (is_revoked x)) [
          | inl gone ↦ absurd (error (rw (fresh, gone) at (rw there at (rw (up, logout) at w))))
          | inr live ↦
              rw (up, logout)
                (rw there (
                  rw (fresh, live)
                    (revoke_found-IsDead env (digest token) x db u there
                      (rw (fresh, live) at (rw there at (rw (up, logout) at w))))))
        ]
      ]
