-- ===== src/Oms/Risk/Rules.antt =====
-- services/order-management-service/internal/risk/rules.go: the five rules. A rule reads and writes
-- Redis, and gives its reason where it refuses an order.
use aipx.Prelude.{
  ℕ, zero, suc, ◌+◌, ◌*◌, String, Bool, Option, none, some, List, leb, if◌then◌else◌,
}
use aipx.Prelude.Int.{ℤ, pos, negsuc}
use aipx.Prelude.Dict.{Dict, lookup, insert}
use aipx.Float.{FloatOps}
use aipx.Oms.Risk.Error.{
  RuleError, price_required, value_exceeded, price_unavailable, bad_price_format,
  deviation_exceeded, loss_limit_exceeded, duplicate_check_failed, duplicate_detected,
}
use aipx.Oms.Risk.Match.{validate_symbol}
use aipx.Oms.Order.{Order, OrderSide, limit, market}

-- A value with the time at which Redis drops it, if it does.
pub record Cached : Type 0 where
  pub value : String
  pub expires_at : Option ℕ

-- The keys `market_price:…`, `daily_pnl:…` and `order_fingerprint:…`, by what follows the colon.
pub record Redis : Type 0 where
  pub market_price : Dict String
  pub daily_pnl : Dict Cached
  pub fingerprint : Dict Cached

-- How the outside answers during one validation: whether reads and writes reach Redis, the time in
-- nanoseconds, and the text of a user's key on this day.
pub record RiskEnv : Type 0 where
  pub read_up : Bool
  pub write_up : Bool
  pub now : ℕ
  pub pnl_key : String → String

-- What a fingerprint is the digest of.
pub record FingerprintData : Type 0 where
  pub user_id : String
  pub symbol : String
  pub side : OrderSide
  pub price_str : String
  pub quantity : ℤ

-- The types that implement `RiskRule`, each with its flag `enabled` last.
pub data RiskRule (F : Type 0) : Type 0 where
  max_order_value : F → Bool → RiskRule F
  price_deviation : F → Bool → RiskRule F
  daily_loss_limit : F → Bool → RiskRule F
  duplicate_order : ℤ → Bool → RiskRule F
  allowed_symbol : List String → Bool → RiskRule F

-- A key that Redis still holds.
abbrev pub live : ℕ → Option Cached → Option String
live now none = none
live now (some c) = elim c.expires_at [
  | none ↦ some c.value
  | some t ↦ if leb t now then none else some c.value
]

-- The end of a key that `Set` writes with this expiration in seconds: with none of at least a second
-- go-redis sets no expiration.
abbrev pub set_expiry : ℕ → ℤ → Option ℕ
set_expiry now (pos zero) = none
set_expiry now (pos (suc n)) = some (now + suc n * 1000000000)
set_expiry now (negsuc n) = none

module _ {F : Type 0} (fl : FloatOps F) (digest : FingerprintData → String) where
  -- `MaxOrderValueRule.Validate`
  unfoldable pub validate_value : F → Order F → Option RuleError
  validate_value max_value o = elim o.order_type [
    | market ↦ none
    | limit ↦ elim o.price [
      | none ↦ some price_required
      | some p ↦
          if fl.lt max_value (fl.mul p (fl.of_int o.quantity)) then some value_exceeded else none
    ]
  ]

  -- The end of `PriceDeviationRule.Validate`, with the market price at hand.
  abbrev pub check_deviation : F → F → F → Option RuleError
  check_deviation max_ratio p market_price =
      if fl.lt max_ratio (fl.div (fl.abs (fl.sub p market_price)) market_price)
      then some deviation_exceeded
      else none

  abbrev pub check_market_price : F → F → Option String → Option RuleError
  check_market_price max_ratio p none = none
  check_market_price max_ratio p (some text) = elim (fl.parse text) [
    | none ↦ some bad_price_format
    | some market_price ↦ check_deviation max_ratio p market_price
  ]

  -- `PriceDeviationRule.Validate`
  unfoldable pub validate_deviation : RiskEnv → F → Order F → Redis → Option RuleError
  validate_deviation env max_ratio o r = elim o.order_type [
    | market ↦ none
    | limit ↦ elim o.price [
      | none ↦ some price_required
      | some p ↦
          if env.read_up
          then check_market_price max_ratio p (lookup o.symbol r.market_price)
          else some price_unavailable
    ]
  ]

  -- `calculateDailyPnL`
  unfoldable pub calculate_daily_pnl : String → F
  calculate_daily_pnl user_id = fl.zero

  abbrev pub check_loss : F → F → Option RuleError
  check_loss loss_limit pnl =
      if fl.lt pnl (fl.neg loss_limit) then some loss_limit_exceeded else none

  -- `DailyLossLimitRule.Validate`
  unfoldable pub validate_loss : RiskEnv → F → Order F → Redis → Option RuleError × Redis
  unfolding calculate_daily_pnl
  validate_loss env loss_limit o r =
      let key = env.pnl_key o.user_id in
      if env.read_up
      then elim (live env.now (lookup key r.daily_pnl)) [
        | some text ↦ (check_loss loss_limit (fl.parse_value text), r)
        | none ↦
            let pnl = calculate_daily_pnl o.user_id in
            let entry : Cached = record {
              value = fl.format pnl;
              expires_at = set_expiry env.now (pos 300);
            } in
            (
              check_loss loss_limit pnl,
              if env.write_up then record r { daily_pnl = insert key entry r.daily_pnl } else r,
            )
      ]
      else (none, r)

  -- `generateFingerprint`
  unfoldable pub generate_fingerprint : Order F → String
  generate_fingerprint o = digest (record {
    user_id = o.user_id;
    symbol = o.symbol;
    side = o.side;
    price_str = elim o.price [ some p ↦ fl.format p | none ↦ "market" ];
    quantity = o.quantity;
  })

  -- The first half of `DuplicateOrderRule.Validate`: the test `EXISTS`.
  unfoldable pub check_duplicate : RiskEnv → Order F → Redis → Option RuleError
  check_duplicate env o r =
      if env.read_up
      then elim (live env.now (lookup (generate_fingerprint o) r.fingerprint)) [
        | none ↦ none
        | some id ↦ some duplicate_detected
      ]
      else some duplicate_check_failed

  -- The second half: `SET` with the window, in seconds; a failure is only logged.
  unfoldable pub record_fingerprint : RiskEnv → ℤ → Order F → Redis → Redis
  record_fingerprint env window o r =
      if env.write_up
      then record r {
        fingerprint =
            insert (generate_fingerprint o)
              (record { value = o.id; expires_at = set_expiry env.now window }) r.fingerprint;
      }
      else r

  -- `DuplicateOrderRule.Validate`
  unfoldable pub validate_duplicate : RiskEnv → ℤ → Order F → Redis → Option RuleError × Redis
  unfolding check_duplicate record_fingerprint
  validate_duplicate env window o r = elim (check_duplicate env o r) [
    | some e ↦ (some e, r)
    | none ↦ (none, record_fingerprint env window o r)
  ]

  -- The method `Validate` of the interface.
  unfoldable pub validate_rule : RiskEnv → RiskRule F → Order F → Redis → Option RuleError × Redis
  validate_rule env (max_order_value m on) o r = (validate_value m o, r)
  validate_rule env (price_deviation d on) o r = (validate_deviation env d o r, r)
  validate_rule env (daily_loss_limit l on) o r = validate_loss env l o r
  validate_rule env (duplicate_order window on) o r = validate_duplicate env window o r
  validate_rule env (allowed_symbol symbols on) o r = (validate_symbol symbols o.symbol, r)

-- The methods `Name` and `Enabled`.
unfoldable pub rule_name : {F : Type 0} → RiskRule F → String
rule_name (max_order_value m on) = "MaxOrderValue"
rule_name (price_deviation d on) = "PriceDeviation"
rule_name (daily_loss_limit l on) = "DailyLossLimit"
rule_name (duplicate_order window on) = "DuplicateOrder"
rule_name (allowed_symbol symbols on) = "AllowedSymbol"

unfoldable pub rule_enabled : {F : Type 0} → RiskRule F → Bool
rule_enabled (max_order_value m on) = on
rule_enabled (price_deviation d on) = on
rule_enabled (daily_loss_limit l on) = on
rule_enabled (duplicate_order window on) = on
rule_enabled (allowed_symbol symbols on) = on
