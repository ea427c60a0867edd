-- ===== src/User/Auth/Dead.antt =====
-- Revoked rows of token_repo.go.
use aipx.Prelude.{
  ℕ, String, str_eq, eq_iff, Bool, true, false, ◌&&◌, not, Option, some, List, [], ◌∷◌, ◌≡◌, ◌≢◌,
  refl, ap, arith, inl, inr, Bool-cases, Option-cases,
}
use aipx.User.Rows.{find, update_where, All, All-update_where, All-mono, All-find}
use aipx.User.Accounts.{WriteResult, written}
use aipx.User.Tokens.{
  RefreshToken, token_found, token_missing, get_refresh_token_by_hash, revoke_token, has_hash,
  is_revoked, revoked, check_token,
}

-- Every row with the hash is revoked.
abbrev pub IsDead : String → List RefreshToken → Type 0
IsDead h ts = All (λ (t : RefreshToken). t.token_hash ≡ h → is_revoked t ≡ true) ts

-- The constraint UNIQUE, for one hash: no row with the hash stands behind another.
abbrev pub IsUnique : String → List RefreshToken → Type 0
IsUnique h [] = Unit
IsUnique h (t ∷ ts) =
    (t.token_hash ≡ h → All (λ (x : RefreshToken). x.token_hash ≢ h) ts) × IsUnique h ts

-- The row that is found is the only one.
only_row :
    (h : String) (ts : List RefreshToken) (t : RefreshToken)
    → IsUnique h ts
    → find (has_hash h) ts ≡ some t
    → All (λ (x : RefreshToken). x.token_hash ≡ h → x ≡ t) ts
unfolding find
only_row h [] t u e = tt
only_row h (x ∷ ts) t u e = elim (Bool-cases (has_hash h x)) [
  | inl hit ↦
      let here : x ≡ t = injected (rw hit at e) in
      (
        λ same. here,
        All-mono (λ (y : RefreshToken). y.token_hash ≢ h)
            (λ (y : RefreshToken). y.token_hash ≡ h → y ≡ t)
            (λ y differs same. absurd (differs same)) ts (u.0 ((eq_iff x.token_hash h).0 hit)),
      )
  | inr other ↦ (λ same. absurd (apart x other same), only_row h ts t u.1 (rw other at e))
]
  where
    injected : ◌≡◌ {A = Option RefreshToken} (some x) (some t) → x ≡ t
    injected h = cc

    apart : (y : RefreshToken) → has_hash h y ≡ false → y.token_hash ≡ h → ⊥
    apart y other same = ground (arith, eq_iff y.token_hash h)

pub revoke_token-IsDead :
    (up : Bool) (now : ℕ) (h : String) (t : RefreshToken) (ts : List RefreshToken)
    → IsUnique h ts
    → find (has_hash h) ts ≡ some t
    → (revoke_token up now t.id ts).0 ≡ written
    → IsDead h (revoke_token up now t.id ts).1
unfolding revoke_token
revoke_token-IsDead false now h t ts u e w = absurd (failed w)
  where
    failed : WriteResult.write_failed ≡ written → ⊥
    failed w = cc
revoke_token-IsDead true now h t ts u e w =
    All-update_where (λ (x : RefreshToken). x.token_hash ≡ h → x ≡ t)
      (λ (x : RefreshToken). x.token_hash ≡ h → is_revoked x ≡ true)
      (λ (x : RefreshToken). str_eq x.id t.id && not (is_revoked x)) (revoked now)
      (λ x taken same hash. refl)
      (λ x left same hash. kept x left (ap (λ (y : RefreshToken). y.id) (same hash))) ts
      (only_row h ts t u e)
  where
    kept :
        (x : RefreshToken)
        → (str_eq x.id t.id && not (is_revoked x)) ≡ false
        → x.id ≡ t.id
        → is_revoked x ≡ true
    kept x left same = ground (arith, eq_iff x.id t.id)

-- Revoking more rows keeps the hash dead.
pub more_revoked-IsDead :
    (h : String) (test : RefreshToken → Bool) (now : ℕ) (ts : List RefreshToken)
    → IsDead h ts
    → IsDead h (update_where test (revoked now) ts)
more_revoked-IsDead h test now ts d =
    All-update_where (λ (x : RefreshToken). x.token_hash ≡ h → is_revoked x ≡ true)
      (λ (x : RefreshToken). x.token_hash ≡ h → is_revoked x ≡ true) test (revoked now)
      (λ x taken same hash. refl) (λ x left same. same) ts d

-- A refresh token whose hash is dead, or absent, gets nothing.
pub dead_not_found :
    (up : Bool) (now : ℕ) (h : String) (ts : List RefreshToken) (t : RefreshToken)
    → IsDead h ts
    → get_refresh_token_by_hash up now h ts ≢ token_found t
unfolding get_refresh_token_by_hash
dead_not_found false now h ts t d e = cc
dead_not_found true now h ts t d e = elim (Option-cases (find (has_hash h) ts)) [
  | inl none_there ↦ absurd (missing (rw none_there at e))
  | inr (x, there) ↦
      let (dead, test) =
        All-find (λ (y : RefreshToken). y.token_hash ≡ h → is_revoked y ≡ true) (has_hash h) ts x d
          there in
      absurd (revoked_found x (dead ((eq_iff x.token_hash h).0 test)) (rw there at e))
]
  where
    missing : token_missing ≡ token_found t → ⊥
    missing h = cc

    revoked_found :
        (x : RefreshToken) → is_revoked x ≡ true → check_token now (some x) ≡ token_found t → ⊥
    revoked_found x dead h = ground arith
