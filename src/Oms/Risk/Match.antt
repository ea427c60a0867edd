-- ===== src/Oms/Risk/Match.antt =====
-- services/order-management-service/internal/risk/rules.go: the symbols that an order may have, with
-- the wildcard at the end of a pattern.
use Prim.Native.Char.{code}
use aipx.Prelude.{
  ℕ, String, str_eq, eq_iff, Bool, true, false, ◌&&◌, Option, none, some, List, [], ◌∷◌, ◌++◌, ◌==◌,
  if◌then◌else◌, ◌≡◌, refl, ◌⊎◌, inl, inr, ◌↔◌, arith, Bool-cases, Option-cases,
}
use aipx.Oms.Risk.Error.{RuleError, symbol_not_allowed}

abbrev pub codes : String → List ℕ
codes String.[] = []
codes (String.◌∷◌ c s) = code c ∷ codes s

-- `strings.TrimSuffix(pattern, "*")`, where the pattern has that suffix.
unfoldable pub strip_star : List ℕ → Option (List ℕ)
strip_star [] = none
strip_star (c ∷ []) = if c == b'*' then some [] else none
strip_star (c ∷ d ∷ cs) = elim (strip_star (d ∷ cs)) [ none ↦ none | some p ↦ some (c ∷ p) ]

-- `strings.HasPrefix`
unfoldable pub has_prefix : List ℕ → List ℕ → Bool
has_prefix s [] = true
has_prefix [] (p ∷ ps) = false
has_prefix (c ∷ s) (p ∷ ps) = c == p && has_prefix s ps

-- `matchSymbol`
unfoldable pub match_symbol : String → String → Bool
unfolding strip_star has_prefix
match_symbol symbol pattern =
    if str_eq symbol pattern then true else elim (strip_star (codes pattern)) [
      | none ↦ false
      | some prefix ↦ has_prefix (codes symbol) prefix
    ]

-- The loop of `AllowedSymbolRule.Validate`.
unfoldable pub any_match : String → List String → Bool
unfolding match_symbol
any_match symbol [] = false
any_match symbol (p ∷ ps) =
    let rest = any_match symbol ps in if match_symbol symbol p then true else rest

-- `AllowedSymbolRule.Validate`
unfoldable pub validate_symbol : List String → String → Option RuleError
unfolding any_match
validate_symbol [] symbol = none
validate_symbol (p ∷ ps) symbol =
    if any_match symbol (p ∷ ps) then none else some symbol_not_allowed

-- The pattern names the symbol, or ends in a star behind a beginning of the symbol.
abbrev pub Matches : String → String → Type 0
Matches symbol pattern =
    (symbol ≡ pattern)
    ⊎ ((prefix rest : List ℕ) × (codes pattern ≡ prefix ++ b'*' ∷ [])
        × (codes symbol ≡ prefix ++ rest))

strip_star-some : (cs p : List ℕ) → strip_star cs ≡ some p → cs ≡ p ++ b'*' ∷ []
unfolding strip_star
strip_star-some [] p h = cc
strip_star-some (c ∷ []) p h = ground arith
strip_star-some (c ∷ d ∷ cs) p h = elim (Option-cases (strip_star (d ∷ cs))) [
  | inl e ↦ absurd (none_of_stuck c d cs p e h)
  | inr (q, e) ↦ ground (arith, strip_star-some (d ∷ cs) q e)
]
  where
    none_of_stuck :
        (c d : ℕ) (cs p : List ℕ)
        → strip_star (d ∷ cs) ≡ none
        → strip_star (c ∷ d ∷ cs) ≡ some p
        → ⊥
    none_of_stuck c d cs p e h = ground arith

strip_star-append : (p : List ℕ) → strip_star (p ++ b'*' ∷ []) ≡ some p
unfolding strip_star
strip_star-append [] = refl
strip_star-append (c ∷ []) = refl
strip_star-append (c ∷ d ∷ p) = rw (strip_star-append (d ∷ p), strip_star)

has_prefix-rest : (s p : List ℕ) → has_prefix s p ≡ true → (rest : List ℕ) × (s ≡ p ++ rest)
unfolding has_prefix
has_prefix-rest s [] h = (s, refl)
has_prefix-rest [] (p ∷ ps) h = cc
has_prefix-rest (c ∷ s) (p ∷ ps) h =
    let (rest, e) = has_prefix-rest s ps (ground arith) in (rest, ground arith)

has_prefix-append : (p rest : List ℕ) → has_prefix (p ++ rest) p ≡ true
unfolding has_prefix
has_prefix-append [] rest = refl
has_prefix-append (c ∷ p) rest = ground (arith, has_prefix-append p rest)

match_symbol_sound :
    (symbol pattern : String) → match_symbol symbol pattern ≡ true → Matches symbol pattern
unfolding match_symbol
match_symbol_sound symbol pattern h = elim (Bool-cases (str_eq symbol pattern)) [
  | inl e ↦ inl ((eq_iff symbol pattern).0 e)
  | inr e ↦ elim (Option-cases (strip_star (codes pattern))) [
    | inl none_left ↦ absurd (ground arith)
    | inr (prefix, star) ↦
        let (rest, begins) = has_prefix-rest (codes symbol) prefix (ground arith) in
        inr (prefix, rest, strip_star-some (codes pattern) prefix star, begins)
  ]
]

match_symbol_complete :
    (symbol pattern : String) → Matches symbol pattern → match_symbol symbol pattern ≡ true
unfolding match_symbol
match_symbol_complete symbol pattern (inl e) = ground (arith, eq_iff symbol pattern)
match_symbol_complete symbol pattern (inr (prefix, rest, star, begins)) =
    let stripped : strip_star (codes pattern) ≡ some prefix = rw star (strip_star-append prefix) in
    let starts : has_prefix (codes symbol) prefix ≡ true =
      rw begins (has_prefix-append prefix rest) in
    ground arith

-- `matchSymbol` accepts a symbol exactly when the pattern names it, or is a beginning of it
-- followed by a star.
pub match_symbol_iff :
    (symbol pattern : String) → (match_symbol symbol pattern ≡ true) ↔ Matches symbol pattern
match_symbol_iff symbol pattern =
    (match_symbol_sound symbol pattern, match_symbol_complete symbol pattern)
