-- ===== src/Oms/Risk/Error.antt =====
-- The reasons for which a rule of rules.go refuses an order.
pub data RuleError : Type 0 where
  price_required value_exceeded price_unavailable bad_price_format deviation_exceeded : RuleError
  loss_limit_exceeded duplicate_check_failed duplicate_detected symbol_not_allowed : RuleError
