-- ===== src/Oms/Interceptor/Bearer.antt =====
-- How auth.go reads the token out of a header.
use aipx.Prelude.{
  ◌≡◌, ◌↔◌, inl, inr, refl, ap, ◌∙◌, ◌++◌, Bool, true, false, not, ◌&&◌, ◌==◌, some, [], ◌∷◌, arith,
  Bool-cases, Option-cases,
}
use aipx.Prelude.Text.{Text, codes}
use aipx.Oms.Interceptor.{split_space, equal_fold, bearer_token}

-- Text in which nothing is a space once its case is dropped.
abbrev has_no_space : Text → Bool
has_no_space [] = true
has_no_space (c ∷ cs) = not (c == b' ') && has_no_space cs

split_space_sound : (t : Text) (p : Text × Text) → split_space t ≡ some p → t ≡ p.0 ++ b' ' ∷ p.1
unfolding split_space
split_space_sound [] p = λ h. absurd cc
split_space_sound (c ∷ cs) p = elim (Bool-cases (c == b' ')) [
  | inl e ↦ rw (e, split_space) (λ h. let same : c ≡ b' ' = ground arith in cc)
  | inr e ↦ elim (Option-cases (split_space cs)) [
    | inl s ↦ rw (e, s, split_space) (λ h. absurd cc)
    | inr (q, s) ↦ rw (e, s, split_space) (λ h. let ih = split_space_sound cs q s in cc)
  ]
]

split_space_first :
    (scheme word token : Text)
    → has_no_space word ≡ true
    → equal_fold scheme word ≡ true
    → split_space (scheme ++ b' ' ∷ token) ≡ some (scheme, token)
unfolding split_space
split_space_first [] [] token = λ clean h. refl
split_space_first [] (w ∷ word) token = λ clean h. absurd cc
split_space_first (c ∷ scheme) [] token = λ clean h. absurd cc
split_space_first (c ∷ scheme) (w ∷ word) token = λ clean h.
    let other : (c == b' ') ≡ false = ground arith in
    let rest = split_space_first scheme word token (ground arith) (ground arith) in
    rw (other, split_space, rest) refl

pub bearer_token_iff :
    (header token : Text)
    → (bearer_token header ≡ some token) ↔ (
        (scheme : Text) × (header ≡ scheme ++ b' ' ∷ token)
        × (equal_fold scheme (codes "bearer") ≡ true))
unfolding bearer_token
bearer_token_iff header token = (
  elim (Option-cases (split_space header)) [
    | inl s ↦ rw (s, bearer_token) (λ h. absurd cc)
    | inr (p, s) ↦ elim (Bool-cases (equal_fold p.0 (codes "bearer"))) [
      | inl e ↦
          rw (s, e, bearer_token)
            (λ h.
              let same : p.1 ≡ token = cc in
              (p.0, split_space_sound header p s ∙ ap (λ t. p.0 ++ b' ' ∷ t) same, e))
      | inr e ↦ rw (s, e, bearer_token) (λ h. absurd cc)
    ]
  ],
  λ (scheme, same, e).
      rw (same, bearer_token, split_space_first scheme (codes "bearer") token refl e, e) refl,
)
