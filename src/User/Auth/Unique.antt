-- ===== src/User/Auth/Unique.antt =====
-- The hashes in the table of token_repo.go stay unique.
use aipx.Prelude.{
  ℕ, String, eq_iff, Bool, false, ltb, none, List, [], ◌∷◌, ◌++◌, ◌≡◌, ◌≢◌, sym, ◌∙◌, arith, inl,
  inr, Bool-cases, Option-cases,
}
use aipx.User.Rows.{find, All, All-append, All-mono, find-none}
use aipx.User.Tokens.{RefreshToken, create_refresh_token, has_hash}
use aipx.User.Auth.Dead.{IsUnique}

IsUnique-append :
    (h : String) (ts : List RefreshToken) (t : RefreshToken)
    → (t.token_hash ≡ h → All (λ (x : RefreshToken). x.token_hash ≢ h) ts)
    → IsUnique h ts
    → IsUnique h (ts ++ t ∷ [])
IsUnique-append h [] t new u = ((λ same. tt), tt)
IsUnique-append h (x ∷ ts) t new u = (
  λ same.
      All-append (λ (y : RefreshToken). y.token_hash ≢ h) ts (t ∷ []) (u.0 same)
        ((λ hash. (new hash).0 same), tt),
  IsUnique-append h ts t (λ hash. (new hash).1) u.1,
)

-- `CreateRefreshToken` keeps each hash unique.
pub create_refresh_token-IsUnique :
    (up : Bool) (now : ℕ) (id h : String) (t : RefreshToken) (ts : List RefreshToken)
    → IsUnique h ts
    → IsUnique h (create_refresh_token up now id t ts).1
unfolding create_refresh_token
create_refresh_token-IsUnique up now id h t ts u = elim (Bool-cases up) [
  | inr down ↦ rw down u
  | inl is_up ↦ elim (Bool-cases (ltb now t.expires_at)) [
    | inr over ↦ rw (is_up, over) u
    | inl later ↦ elim (Option-cases (find (has_hash t.token_hash) ts)) [
      | inr (x, there) ↦ rw (is_up, later) (rw there u)
      | inl absent ↦
          rw (is_up, later) (rw absent (IsUnique-append h ts _ (λ same. none_there same absent) u))
    ]
  ]
]
  where
    none_there :
        t.token_hash ≡ h
        → find (has_hash t.token_hash) ts ≡ none
        → All (λ (x : RefreshToken). x.token_hash ≢ h) ts
    none_there same absent =
        All-mono (λ (x : RefreshToken). has_hash t.token_hash x ≡ false)
          (λ (x : RefreshToken). x.token_hash ≢ h) (λ x other hash. apart x other (hash ∙ sym same))
          ts (find-none (has_hash t.token_hash) ts absent)
      where
        apart :
            (x : RefreshToken) → has_hash t.token_hash x ≡ false → x.token_hash ≡ t.token_hash → ⊥
        apart x other hash = ground (arith, eq_iff x.token_hash t.token_hash)
