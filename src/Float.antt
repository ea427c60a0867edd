-- ===== src/Float.antt =====
-- Go's float64: the operations that the services use, as an interface. `lt a b` is `a < b`, and
-- `le a b` is `a <= b`; both are false at a NaN.
pub mod Whole
use aipx.Prelude.{String, Bool, Option}
use aipx.Prelude.Int.{ℤ}

pub record FloatOps (F : Type 0) : Type 0 where
  pub zero : F
  pub of_int : ℤ → F
  pub mul : F → F → F
  pub sub : F → F → F
  pub div : F → F → F
  pub abs : F → F
  pub neg : F → F
  pub lt : F → F → Bool
  pub le : F → F → Bool
  -- `strconv.ParseFloat`, and the value that it returns beside an error
  pub parse : String → Option F
  pub parse_value : String → F
  -- `fmt.Sprintf("%.2f", x)`
  pub format : F → String
