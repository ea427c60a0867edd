-- ===== src/Oms/Risk/Engine/Tests.antt =====
-- The risk engine's theorems at concrete orders.
use aipx.Prelude.{
  ℕ, String, str_eq, eq_iff, true, false, none, some, List, [], ◌∷◌, ◌≡◌, ◌≢◌, ◌↔◌, refl, arith,
}
use aipx.Prelude.Int.{ℤ, pos}
use aipx.Prelude.Dict.{lookup}
use aipx.Oms.Risk.Error.{value_exceeded}
use aipx.Oms.Risk.Rules.{
  Redis, RiskEnv, FingerprintData, RiskRule, max_order_value, allowed_symbol, validate_rule,
  validate_value, validate_deviation, validate_loss, validate_duplicate, check_duplicate,
  generate_fingerprint, calculate_daily_pnl, rule_name, rule_enabled,
}
use aipx.Oms.Risk.Match.{validate_symbol, match_symbol, any_match}
use aipx.Oms.Risk.Engine.{Config, Engine, RiskError, validate, validate_rules, register_rules}
use aipx.Oms.Risk.Engine.Acceptance.{full_engine, validate_iff}
use aipx.Oms.Fixtures.{new_order, whole}

abbrev user_digest : FingerprintData → String
user_digest d = d.user_id

abbrev config : Config ℤ
config = record {
  max_order_value = pos 100000000;
  price_deviation = pos 1;
  daily_loss_limit = pos 5000;
  allowed_symbols = "005930" ∷ [];
  duplicate_window = pos 10;
  enable_risk_checks = true;
}

abbrev empty_redis : Redis
empty_redis = record { market_price = []; daily_pnl = []; fingerprint = [] }

abbrev risk_env : ℕ → RiskEnv
risk_env t = record { read_up = true; write_up = true; now = t; pnl_key = λ u. u }

abbrev tight : List (RiskRule ℤ)
tight = allowed_symbol [] true ∷ max_order_value (pos 5) false ∷ max_order_value (pos 5) true ∷ []

abbrev too_dear : RiskError
too_dear = record { rule = "MaxOrderValue"; message = value_exceeded }

too_dear_reported :
    (validate_rules whole user_digest (risk_env 1) tight new_order empty_redis).0 ≡ some too_dear
unfolding validate_rules validate_rule validate_value validate_symbol rule_enabled rule_name
too_dear_reported = refl

passes_first :
    (validate whole user_digest (risk_env 1) (full_engine config) new_order empty_redis).0 ≡ none
unfolding validate register_rules validate_rule validate_value validate_deviation validate_loss
    validate_duplicate check_duplicate generate_fingerprint validate_symbol any_match match_symbol
    rule_enabled lookup calculate_daily_pnl validate_rules
passes_first = refl

check_passes : check_duplicate whole user_digest (risk_env 1) new_order empty_redis ≡ none
unfolding check_duplicate lookup
check_passes = refl

duplicate_passes :
    (validate_duplicate whole user_digest (risk_env 1) (pos 10) new_order empty_redis).0 ≡ none
unfolding validate_duplicate check_duplicate lookup
duplicate_passes = refl

validate_iff_example :
    ((validate whole user_digest (risk_env 1) (full_engine config) new_order empty_redis).0 ≡ none)
    ↔ ((validate_value whole user_digest (pos 100000000) new_order ≡ none)
        × (validate_deviation whole user_digest (risk_env 1) (pos 1) new_order empty_redis ≡ none)
        × ((validate_loss whole user_digest (risk_env 1) (pos 5000) new_order empty_redis).0 ≡ none)
        × (check_duplicate whole user_digest (risk_env 1) new_order empty_redis ≡ none)
        × (validate_symbol ("005930" ∷ []) "005930" ≡ none))
validate_iff_example = validate_iff whole user_digest (risk_env 1) new_order config empty_redis

abbrev engine : Engine ℤ
engine = record { rules = tight; config = config; enabled = true }

apart : (a b : String) → str_eq a b ≡ false → a ≢ b
apart a b h e = ground (arith, eq_iff a b)

names_differ : rule_name {F = ℤ} (allowed_symbol [] true) ≢ "MaxOrderValue"
unfolding rule_name
names_differ = apart "AllowedSymbol" "MaxOrderValue" refl

abbrev bare : Engine ℤ
bare = record { rules = []; config = config; enabled = true }
