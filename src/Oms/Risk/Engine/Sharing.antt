-- ===== src/Oms/Risk/Engine/Sharing.antt =====
-- `Validate` of engine.go copies the slice `e.rules` under the lock and reads its array after it,
-- while `RemoveRule` shifts the elements of that same array.
use aipx.Prelude.{
  ℕ, suc, String, str_eq, eq_iff, List, [], ◌∷◌, ◌++◌, if◌then◌else◌, ◌≡◌, refl, ap, arith, length,
  take, drop, append_assoc,
}
use aipx.Oms.Risk.Rules.{RiskRule, rule_name}
use aipx.Oms.Risk.Engine.Registry.{NoneNamed}

module _ {F : Type 0} where
  -- The last element of the array, which `append(rules[:i], rules[i+1:]...)` leaves in its place.
  pub last_of : RiskRule F → List (RiskRule F) → RiskRule F
  last_of r [] = r
  last_of r (s ∷ rs) = last_of s rs

  -- The array behind the old slice, once the first rule of the name is removed.
  pub shifted : String → List (RiskRule F) → List (RiskRule F)
  unfolding last_of
  shifted name [] = []
  shifted name (r ∷ rs) =
      let rest = r ∷ shifted name rs in
      if str_eq (rule_name r) name then rs ++ last_of r rs ∷ [] else rest

  -- What a loop over the old slice reads that has read `k` elements when the rule is removed.
  pub read_across : ℕ → String → List (RiskRule F) → List (RiskRule F)
  unfolding shifted
  read_across k name rules = take k rules ++ drop k (shifted name rules)

  shifted-append :
      (name : String) (before after : List (RiskRule F)) (r : RiskRule F)
      → NoneNamed name before
      → rule_name r ≡ name
      → shifted name (before ++ r ∷ after) ≡ before ++ (after ++ last_of r after ∷ [])
  unfolding shifted
  shifted-append name [] after r h e = ground (arith, eq_iff (rule_name r) name)
  shifted-append name (b ∷ before) after r h e =
      ground (arith, eq_iff (rule_name b) name, shifted-append name before after r h.1 e)

  take_more :
      (xs : List (RiskRule F)) (y : RiskRule F) (ys : List (RiskRule F))
      → take (suc (length xs)) (xs ++ y ∷ ys) ≡ xs ++ y ∷ []
  take_more [] y ys = refl
  take_more (x ∷ xs) y ys = ap (λ l. x ∷ l) (take_more xs y ys)

  drop_more :
      (xs : List (RiskRule F)) (y : RiskRule F) (ys : List (RiskRule F))
      → drop (suc (length xs)) (xs ++ y ∷ ys) ≡ ys
  drop_more [] y ys = refl
  drop_more (x ∷ xs) y ys = drop_more xs y ys

  -- Where `Validate` has applied the rules up to `r` and `RemoveRule` then removes `r`, the rule `s`
  -- that follows `r` is never applied to the order, and the last rule is applied twice.
  pub removal_skips_rule :
      (before after : List (RiskRule F)) (r s : RiskRule F)
      → NoneNamed (rule_name r) before
      → read_across (suc (length before)) (rule_name r) (before ++ r ∷ s ∷ after)
        ≡ before ++ r ∷ (after ++ last_of s after ∷ [])
  unfolding read_across last_of
  removal_skips_rule before after r s h =
      rw (shifted-append (rule_name r) before (s ∷ after) r h refl) (
        rw (take_more before r (s ∷ after), drop_more before s (after ++ last_of s after ∷ []))
          (append_assoc before (r ∷ []) (after ++ last_of s after ∷ [])))
