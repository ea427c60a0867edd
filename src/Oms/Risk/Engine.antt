-- ===== src/Oms/Risk/Engine.antt =====
-- services/order-management-service/internal/risk/engine.go: the rules in their order.
pub mod Soundness
pub mod Acceptance
pub mod Registry
pub mod Sharing
mod Tests
use aipx.Prelude.{
  ℕ, zero, suc, String, str_eq, Bool, true, false, ◌&&◌, Option, none, some, List, [], ◌∷◌, ◌++◌,
  if◌then◌else◌,
}
use aipx.Prelude.Int.{ℤ}
use aipx.Float.{FloatOps}
use aipx.Oms.Order.{Order}
use aipx.Oms.Risk.Error.{RuleError}
use aipx.Oms.Risk.Rules.{
  Redis, RiskEnv, FingerprintData, RiskRule, max_order_value, price_deviation, daily_loss_limit,
  duplicate_order, allowed_symbol, validate_rule, rule_name, rule_enabled,
}

pub record Config (F : Type 0) : Type 0 where
  pub max_order_value : F
  pub price_deviation : F
  pub daily_loss_limit : F
  pub allowed_symbols : List String
  pub duplicate_window : ℤ
  pub enable_risk_checks : Bool

pub record Engine (F : Type 0) : Type 0 where
  pub rules : List (RiskRule F)
  pub config : Config F
  pub enabled : Bool

-- Whether `Dependencies` has each of its clients.
pub record Dependencies : Type 0 where
  pub repository : Bool
  pub redis_client : Bool

-- `RiskError`
pub record RiskError : Type 0 where
  pub rule : String
  pub message : RuleError

module _ {F : Type 0} where
  abbrev pub when : Bool → RiskRule F → List (RiskRule F)
  when true r = r ∷ []
  when false r = []

  -- `registerRules`
  pub register_rules : Config F → Dependencies → List (RiskRule F)
  register_rules c deps =
      max_order_value c.max_order_value true
        ∷ when deps.redis_client (price_deviation c.price_deviation true)
      ++ (when (deps.repository && deps.redis_client) (daily_loss_limit c.daily_loss_limit true)
          ++ (when deps.redis_client (duplicate_order c.duplicate_window true)
              ++ allowed_symbol c.allowed_symbols true ∷ []))

  -- `NewEngine`
  pub new_engine : Option (Config F) → Dependencies → Option (Engine F)
  unfolding register_rules
  new_engine none deps = none
  new_engine (some c) deps =
      some (record { rules = register_rules c deps; config = c; enabled = c.enable_risk_checks })

  -- `AddRule`
  pub add_rule : RiskRule F → Engine F → Engine F
  add_rule r e = record e { rules = e.rules ++ r ∷ [] }

  -- The loop of `RemoveRule`: it stops at the first rule of that name.
  pub remove_first : String → List (RiskRule F) → List (RiskRule F)
  remove_first name [] = []
  remove_first name (r ∷ rs) =
      let rest = r ∷ remove_first name rs in if str_eq (rule_name r) name then rs else rest

  -- `RemoveRule`
  pub remove_rule : String → Engine F → Engine F
  unfolding remove_first
  remove_rule name e = record e { rules = remove_first name e.rules }

  -- `Enable`, `Disable`
  pub enable : Engine F → Engine F
  enable e = record e { enabled = true }

  pub disable : Engine F → Engine F
  disable e = record e { enabled = false }

module _ {F : Type 0} (fl : FloatOps F) (digest : FingerprintData → String) where
  -- The loop of `Validate`.
  pub validate_rules : RiskEnv → List (RiskRule F) → Order F → Redis → Option RiskError × Redis
  validate_rules env [] o r = (none, r)
  validate_rules env (rule ∷ rules) o r =
      let skipped = validate_rules env rules o r in
      let (result, r') = validate_rule fl digest env rule o r in
      let applied : Option RiskError × Redis = elim result [
        | some e ↦ (some (record { rule = rule_name rule; message = e }), r')
        | none ↦ validate_rules env rules o r'
      ] in
      if rule_enabled rule then applied else skipped

  -- `Validate`
  pub validate : RiskEnv → Engine F → Order F → Redis → Option RiskError × Redis
  validate env e o r = if e.enabled then validate_rules env e.rules o r else (none, r)
