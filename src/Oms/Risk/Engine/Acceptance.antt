-- ===== src/Oms/Risk/Engine/Acceptance.antt =====
-- What an order has met that the engine of engine.go lets through, with all five rules registered.
use aipx.Prelude.{
  ℕ, suc, ◌+◌, ◌*◌, ◌<◌, String, true, false, Option, none, some, List, [], ◌∷◌, ◌≡◌, ◌≢◌, refl,
  sym, ap, ◌∙◌, ◌↔◌, arith, ◌⊎◌, inl, inr, Bool-cases,
}
use aipx.Prelude.Int.{pos}
use aipx.Float.{FloatOps}
use aipx.Oms.Order.{Order, limit}
use aipx.Oms.Risk.Error.{RuleError}
use aipx.Oms.Risk.Match.{Matches, match_symbol, match_symbol_iff, any_match, validate_symbol}
use aipx.Oms.Risk.Rules.{
  Redis, RiskEnv, FingerprintData, RiskRule, max_order_value, price_deviation, daily_loss_limit,
  duplicate_order, allowed_symbol, validate_rule, rule_enabled, validate_value, validate_deviation,
  validate_loss, validate_duplicate, check_duplicate, generate_fingerprint, record_fingerprint,
}
use aipx.Oms.Risk.Duplicates.{validate_duplicate-result, validate_duplicate-passed, check_recorded}
use aipx.Oms.Risk.Engine.{Config, Engine, register_rules, validate_rules, validate}
use aipx.Oms.Risk.Engine.Soundness.{rules_iff, rules_pass, nothing_refused}

-- Some pattern of the list matches.
abbrev pub MatchesAny : String → List String → Type 0
MatchesAny symbol [] = ⊥
MatchesAny symbol (p ∷ ps) = Matches symbol p ⊎ MatchesAny symbol ps

any_match-MatchesAny :
    (symbol : String) (ps : List String) → any_match symbol ps ≡ true → MatchesAny symbol ps
unfolding any_match
any_match-MatchesAny symbol [] h = cc
any_match-MatchesAny symbol (p ∷ ps) h = elim (Bool-cases (match_symbol symbol p)) [
  | inl e ↦ inl ((match_symbol_iff symbol p).0 e)
  | inr e ↦ inr (any_match-MatchesAny symbol ps (rw e at h))
]

validate_symbol_sound :
    (ps : List String) (symbol : String)
    → validate_symbol ps symbol ≡ none
    → (ps ≡ []) ⊎ MatchesAny symbol ps
unfolding validate_symbol
validate_symbol_sound [] symbol h = inl refl
validate_symbol_sound (p ∷ ps) symbol h = elim (Bool-cases (any_match symbol (p ∷ ps))) [
  | inl e ↦ inr (any_match-MatchesAny symbol (p ∷ ps) e)
  | inr e ↦ absurd (refused (rw e at h))
]
  where
    refused : {x : RuleError} → ◌≡◌ {A = Option RuleError} (some x) none → ⊥
    refused h = cc

-- The engine that `NewEngine` makes with both clients at hand.
abbrev pub full_engine : {F : Type 0} → Config F → Engine F
full_engine c = record {
  rules = register_rules c (record { repository = true; redis_client = true });
  config = c;
  enabled = true;
}

module _ {F : Type 0} (fl : FloatOps F) (digest : FingerprintData → String) (env : RiskEnv)
    (o : Order F) where
  validate_value_sound :
      (max_value : F)
      → validate_value fl digest max_value o ≡ none
      → o.order_type ≡ limit
      → (p : F) × (o.price ≡ some p) × (fl.lt max_value (fl.mul p (fl.of_int o.quantity)) ≡ false)
  unfolding validate_value
  validate_value_sound max_value h l = ground arith

  -- The loss rule leaves the fingerprints alone.
  validate_loss-fingerprint :
      (loss_limit : F) (r : Redis)
      → (validate_loss fl digest env loss_limit o r).1.fingerprint ≡ r.fingerprint
  unfolding validate_loss
  validate_loss-fingerprint loss_limit r = ground arith

  check_duplicate-fingerprint :
      (r r' : Redis)
      → r'.fingerprint ≡ r.fingerprint
      → check_duplicate fl digest env o r' ≡ check_duplicate fl digest env o r
  unfolding check_duplicate
  check_duplicate-fingerprint r r' e = rw (e, check_duplicate)

  module _ (c : Config F) (r : Redis) where
    -- The engine that is enabled and has all five rules, both clients being at hand, lets an order
    -- through exactly when each of the five does on the state of Redis at the beginning.
    pub validate_iff : ((validate fl digest env (full_engine c) o r).0 ≡ none) ↔ (
        (validate_value fl digest c.max_order_value o ≡ none)
        × (validate_deviation fl digest env c.price_deviation o r ≡ none)
        × ((validate_loss fl digest env c.daily_loss_limit o r).0 ≡ none)
        × (check_duplicate fl digest env o r ≡ none)
        × (validate_symbol c.allowed_symbols o.symbol ≡ none))
    unfolding validate register_rules validate_rule rule_enabled
    validate_iff =
        let rule5 : RiskRule F = allowed_symbol c.allowed_symbols true in
        let rule4 : RiskRule F = duplicate_order c.duplicate_window true in
        let rule3 : RiskRule F = daily_loss_limit c.daily_loss_limit true in
        let rule2 : RiskRule F = price_deviation c.price_deviation true in
        let rule1 : RiskRule F = max_order_value c.max_order_value true in
        let r3 = (validate_loss fl digest env c.daily_loss_limit o r).1 in
        let r4 = (validate_duplicate fl digest env c.duplicate_window o r3).1 in
        let step1 = rules_iff fl digest env o rule1 (rule2 ∷ rule3 ∷ rule4 ∷ rule5 ∷ []) r refl in
        let step2 = rules_iff fl digest env o rule2 (rule3 ∷ rule4 ∷ rule5 ∷ []) r refl in
        let step3 = rules_iff fl digest env o rule3 (rule4 ∷ rule5 ∷ []) r refl in
        let step4 = rules_iff fl digest env o rule4 (rule5 ∷ []) r3 refl in
        let step5 = rules_iff fl digest env o rule5 [] r4 refl in
        let fresh : (validate_duplicate fl digest env c.duplicate_window o r3).0
            ≡ check_duplicate fl digest env o r =
          validate_duplicate-result fl digest env c.duplicate_window o r3
          ∙ check_duplicate-fingerprint r r3 (validate_loss-fingerprint c.daily_loss_limit r) in
        let done : (validate_rules fl digest env [] o r4).0 ≡ none =
          ap (λ t. t.0) (nothing_refused fl digest env o r4) in
        (
          λ h.
              let (a, h1) = step1.0 h in
              let (b, h2) = step2.0 h1 in
              let (l, h3) = step3.0 h2 in
              let (d, h4) = step4.0 h3 in let (s, h5) = step5.0 h4 in (a, b, l, sym fresh ∙ d, s),
          λ (a, b, l, d, s).
              step1.1 (a, step2.1 (b, step3.1 (l, step4.1 (fresh ∙ d, step5.1 (s, done))))),
        )

    -- With both clients at hand, an order that the engine lets through is worth no more than the
    -- limit where it is a limit order; its symbol matches an allowed pattern, unless none is given;
    -- and Redis held no live fingerprint of it.
    pub validate_sound :
        (validate fl digest env (full_engine c) o r).0 ≡ none
        → (o.order_type ≡ limit
            → (p : F) × (o.price ≡ some p)
              × (fl.lt c.max_order_value (fl.mul p (fl.of_int o.quantity)) ≡ false))
          × ((c.allowed_symbols ≡ []) ⊎ MatchesAny o.symbol c.allowed_symbols)
          × (check_duplicate fl digest env o r ≡ none)
    validate_sound h =
        let (value, _, _, fresh, symbol) = validate_iff.0 h in
        (
          validate_value_sound c.max_order_value value,
          validate_symbol_sound c.allowed_symbols o.symbol symbol,
          fresh,
        )

    -- The state that an order leaves behind which the engine lets through.
    validate_state :
        (validate fl digest env (full_engine c) o r).0 ≡ none
        → (validate fl digest env (full_engine c) o r).1
          ≡ record_fingerprint fl digest env c.duplicate_window o
              (validate_loss fl digest env c.daily_loss_limit o r).1
    unfolding validate register_rules validate_rule rule_enabled
    validate_state h =
        let rule5 : RiskRule F = allowed_symbol c.allowed_symbols true in
        let rule4 : RiskRule F = duplicate_order c.duplicate_window true in
        let rule3 : RiskRule F = daily_loss_limit c.daily_loss_limit true in
        let rule2 : RiskRule F = price_deviation c.price_deviation true in
        let rule1 : RiskRule F = max_order_value c.max_order_value true in
        let r3 = (validate_loss fl digest env c.daily_loss_limit o r).1 in
        let r4 = (validate_duplicate fl digest env c.duplicate_window o r3).1 in
        let (value, deviation, loss, fresh, symbol) = validate_iff.0 h in
        let fresh' : check_duplicate fl digest env o r3 ≡ none =
          check_duplicate-fingerprint r r3 (validate_loss-fingerprint c.daily_loss_limit r)
          ∙ fresh in
        let passed = validate_duplicate-passed fl digest env c.duplicate_window o r3 fresh' in
        ap (λ t. t.1)
          (rules_pass fl digest env o rule1 (rule2 ∷ rule3 ∷ rule4 ∷ rule5 ∷ []) r refl value
            ∙ rules_pass fl digest env o rule2 (rule3 ∷ rule4 ∷ rule5 ∷ []) r refl deviation
            ∙ rules_pass fl digest env o rule3 (rule4 ∷ rule5 ∷ []) r refl loss
            ∙ rules_pass fl digest env o rule4 (rule5 ∷ []) r3 refl (ap (λ t. t.0) passed)
            ∙ rules_pass fl digest env o rule5 [] r4 refl symbol
            ∙ nothing_refused fl digest env o r4)
        ∙ ap (λ t. t.1) passed

module _ {F : Type 0} (fl : FloatOps F) (digest : FingerprintData → String) (c : Config F) where
  -- Once the engine, with both clients at hand and a window of at least a second, has let an order
  -- through and Redis has taken the write, it refuses every order with the same fingerprint until the
  -- window has passed. What has become of the first order makes no difference: one whose execution
  -- failed cannot be sent again either.
  pub validate_again_refused :
      (env env' : RiskEnv) (o o' : Order F) (r : Redis) (window : ℕ)
      → c.duplicate_window ≡ pos (suc window)
      → env.write_up ≡ true
      → env'.read_up ≡ true
      → generate_fingerprint fl digest o' ≡ generate_fingerprint fl digest o
      → env'.now < env.now + suc window * 1000000000
      → (validate fl digest env (full_engine c) o r).0 ≡ none
      → let r' = (validate fl digest env (full_engine c) o r).1 in
        (validate fl digest env' (full_engine c) o' r').0 ≢ none
  validate_again_refused env env' o o' r window w up up' same early first again =
      let r3 = (validate_loss fl digest env c.daily_loss_limit o r).1 in
      let r' = (validate fl digest env (full_engine c) o r).1 in
      let (_, _, _, fresh, _) = (validate_iff fl digest env' o' c r').0 again in
      let recorded = check_recorded fl digest env env' window o o' r3 up up' same early in
      let fresh' : check_duplicate fl digest env' o'
            (record_fingerprint fl digest env (pos (suc window)) o r3)
          ≡ none =
        rw (validate_state fl digest env o c r first, w) at fresh in
      contradiction (sym recorded ∙ fresh')
    where
      contradiction : {x : RuleError} → ◌≡◌ {A = Option RuleError} (some x) none → ⊥
      contradiction h = cc
