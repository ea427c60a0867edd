-- ===== src/Oms/Risk/Engine/Registry.antt =====
-- What `AddRule` and `RemoveRule` of engine.go do to the list of rules.
use aipx.Prelude.{String, eq_iff, List, [], ◌∷◌, ◌++◌, ◌≡◌, ◌≢◌, refl, ◌∙◌, arith, append-nil}
use aipx.Oms.Risk.Rules.{RiskRule, rule_name}
use aipx.Oms.Risk.Engine.{Engine, add_rule, remove_first, remove_rule}

module _ {F : Type 0} where
  -- No rule of the list has the name.
  abbrev pub NoneNamed : String → List (RiskRule F) → Type 0
  NoneNamed name [] = Unit
  NoneNamed name (r ∷ rs) = (rule_name r ≢ name) × NoneNamed name rs

  remove_first-append :
      (name : String) (before after : List (RiskRule F)) (r : RiskRule F)
      → NoneNamed name before
      → rule_name r ≡ name
      → remove_first name (before ++ r ∷ after) ≡ before ++ after
  unfolding remove_first
  remove_first-append name [] after r h e = ground (arith, eq_iff (rule_name r) name)
  remove_first-append name (b ∷ before) after r h e =
      ground (arith, eq_iff (rule_name b) name, remove_first-append name before after r h.1 e)

  remove_first_absent :
      (name : String) (rules : List (RiskRule F))
      → NoneNamed name rules
      → remove_first name rules ≡ rules
  unfolding remove_first
  remove_first_absent name [] h = refl
  remove_first_absent name (b ∷ rules) h =
      ground (arith, eq_iff (rule_name b) name, remove_first_absent name rules h.1)

  -- `RemoveRule` takes out the first rule of the name and keeps the others in their order; where no
  -- rule has the name, it changes nothing.
  pub remove_rule_first :
      (name : String) (before after : List (RiskRule F)) (r : RiskRule F) (e : Engine F)
      → e.rules ≡ before ++ r ∷ after
      → NoneNamed name before
      → (rule_name r ≡ name → (remove_rule name e).rules ≡ before ++ after)
        × (NoneNamed name (r ∷ after) → remove_rule name e ≡ e)
  unfolding remove_rule
  remove_rule_first name before after r e split h = (
    λ named. rw split (remove_first-append name before after r h named),
    λ absent. λ i. record { rules = unchanged absent i; config = e.config; enabled = e.enabled },
  )
    where
      NoneNamed-append :
          (xs ys : List (RiskRule F))
          → NoneNamed name xs
          → NoneNamed name ys
          → NoneNamed name (xs ++ ys)
      NoneNamed-append [] ys a b = b
      NoneNamed-append (x ∷ xs) ys a b = (a.0, NoneNamed-append xs ys a.1 b)

      unchanged : NoneNamed name (r ∷ after) → remove_first name e.rules ≡ e.rules
      unchanged absent =
          remove_first_absent name e.rules (rw split (NoneNamed-append before (r ∷ after) h absent))

  -- A rule that is added under a new name and removed again leaves the engine as it was.
  pub remove_rule-add_rule :
      (r : RiskRule F) (e : Engine F)
      → NoneNamed (rule_name r) e.rules
      → remove_rule (rule_name r) (add_rule r e) ≡ e
  unfolding remove_rule add_rule
  remove_rule-add_rule r e h = λ i. record {
    rules = (remove_first-append (rule_name r) e.rules [] r h refl ∙ append-nil e.rules) i;
    config = e.config;
    enabled = e.enabled;
  }
