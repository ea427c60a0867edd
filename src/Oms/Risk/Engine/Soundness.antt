-- ===== src/Oms/Risk/Engine/Soundness.antt =====
-- What `Validate` of engine.go lets through, and what it reports.
use aipx.Prelude.{
  String, true, false, Option, none, some, List, [], ◌∷◌, ◌++◌, ◌≡◌, refl, ap, ◌↔◌, inl, inr,
  Bool-cases, Option-cases,
}
use aipx.Float.{FloatOps}
use aipx.Oms.Order.{Order}
use aipx.Oms.Risk.Error.{RuleError}
use aipx.Oms.Risk.Rules.{
  Redis, RiskEnv, FingerprintData, RiskRule, validate_rule, rule_name, rule_enabled,
}
use aipx.Oms.Risk.Engine.{RiskError, validate_rules}

same_report : (x y : RiskError) → some y ≡ some x → x ≡ y
same_report x y h = cc

pair_eq : (p : Option RuleError × Redis) (y : RuleError) → p.0 ≡ some y → p ≡ (some y, p.1)
pair_eq p y e = λ i. (e i, p.1)

module _ {F : Type 0} (fl : FloatOps F) (digest : FingerprintData → String) (env : RiskEnv)
    (o : Order F) where
  rules_skip :
      (rule : RiskRule F) (rules : List (RiskRule F)) (r : Redis)
      → rule_enabled rule ≡ false
      → validate_rules fl digest env (rule ∷ rules) o r ≡ validate_rules fl digest env rules o r
  unfolding validate_rules
  rules_skip rule rules r off = rw off

  pub rules_pass :
      (rule : RiskRule F) (rules : List (RiskRule F)) (r : Redis)
      → rule_enabled rule ≡ true
      → (validate_rule fl digest env rule o r).0 ≡ none
      → validate_rules fl digest env (rule ∷ rules) o r
        ≡ validate_rules fl digest env rules o (validate_rule fl digest env rule o r).1
  unfolding validate_rules
  rules_pass rule rules r on e = rw (e, on)

  rules_refuse :
      (rule : RiskRule F) (rules : List (RiskRule F)) (r : Redis) (x : RuleError)
      → rule_enabled rule ≡ true
      → (validate_rule fl digest env rule o r).0 ≡ some x
      → validate_rules fl digest env (rule ∷ rules) o r ≡ (
        some (record { rule = rule_name rule; message = x }),
        (validate_rule fl digest env rule o r).1,
      )
  unfolding validate_rules
  rules_refuse rule rules r x on e = rw (e, on)

  -- An enabled rule in front.
  pub rules_iff :
      (rule : RiskRule F) (rules : List (RiskRule F)) (r : Redis)
      → rule_enabled rule ≡ true
      → ((validate_rules fl digest env (rule ∷ rules) o r).0 ≡ none) ↔ (
          ((validate_rule fl digest env rule o r).0 ≡ none)
          × ((validate_rules fl digest env rules o (validate_rule fl digest env rule o r).1).0
              ≡ none))
  rules_iff rule rules r on = elim (Option-cases (validate_rule fl digest env rule o r).0) [
    | inl e ↦ rw (rules_pass rule rules r on e) (λ h. (e, h), λ h. h.1)
    | inr (x, e) ↦ rw (rules_refuse rule rules r x on e) (λ h. cc, λ h. cc)
  ]

  -- The first enabled rule that refuses the order: the rules before it let the order through, the
  -- report has its name and its reason, and the state is the one that it leaves.
  pub record Refusal (rules : List (RiskRule F)) (r : Redis) (x : RiskError) : Type 0 where
    pub before : List (RiskRule F)
    pub rule : RiskRule F
    pub after : List (RiskRule F)
    pub split : rules ≡ before ++ rule ∷ after
    pub on : rule_enabled rule ≡ true
    pub named : x.rule ≡ rule_name rule
    pub passed : (validate_rules fl digest env before o r).0 ≡ none
    pub refused :
        validate_rule fl digest env rule o (validate_rules fl digest env before o r).1
        ≡ (some x.message, (validate_rules fl digest env rules o r).1)

  pub nothing_refused : (r : Redis) → validate_rules fl digest env [] o r ≡ (none, r)
  unfolding validate_rules
  nothing_refused r = refl

  none_not_some : (x : RiskError) → ◌≡◌ {A = Option RiskError} none (some x) → ⊥
  none_not_some x h = cc

  -- A report of the loop of `Validate` is the refusal of the first enabled rule that refuses the
  -- order; no rule behind it is applied.
  pub validate_rules_first :
      (rules : List (RiskRule F)) (r : Redis) (x : RiskError)
      → (validate_rules fl digest env rules o r).0 ≡ some x
      → Refusal rules r x
  validate_rules_first [] r x h = absurd (none_not_some x (rw nothing_refused at h))
  validate_rules_first (rule ∷ rules) r x h = elim (Bool-cases (rule_enabled rule)) [
    | inr off ↦
        let rest = validate_rules_first rules r x (rw (rules_skip rule rules r off) at h) in
        record {
          before = rule ∷ rest.before;
          rule = rest.rule;
          after = rest.after;
          split = ap (λ l. rule ∷ l) rest.split;
          on = rest.on;
          named = rest.named;
          passed = rw (rules_skip rule rest.before r off) rest.passed;
          refused =
              rw (rules_skip rule rest.before r off, rules_skip rule rules r off) rest.refused;
        }
    | inl on ↦ elim (Option-cases (validate_rule fl digest env rule o r).0) [
      | inl e ↦
          let r' = (validate_rule fl digest env rule o r).1 in
          let rest = validate_rules_first rules r' x (rw (rules_pass rule rules r on e) at h) in
          record {
            before = rule ∷ rest.before;
            rule = rest.rule;
            after = rest.after;
            split = ap (λ l. rule ∷ l) rest.split;
            on = rest.on;
            named = rest.named;
            passed = rw (rules_pass rule rest.before r on e) rest.passed;
            refused =
                rw (rules_pass rule rest.before r on e, rules_pass rule rules r on e) rest.refused;
          }
      | inr (y, e) ↦
          let told : x ≡ record { rule = rule_name rule; message = y } =
            same_report x (record { rule = rule_name rule; message = y })
              (rw (rules_refuse rule rules r y on e) at h) in
          record {
            before = [];
            rule = rule;
            after = rules;
            split = refl;
            on = on;
            named = ap (λ t. t.rule) told;
            passed = rw nothing_refused;
            refused = rw (nothing_refused, told, rules_refuse rule rules r y on e) (pair_eq _ y e);
          }
    ]
  ]
