-- ===== src/Oms/Risk/Duplicates.antt =====
-- What the duplicate check of rules.go promises, and to whom.
use aipx.Prelude.{
  ℕ, suc, ◌+◌, ◌*◌, ◌≤◌, ◌<◌, String, true, Option, none, some, ◌≡◌, refl, ◌∙◌, arith, inl, inr,
  Option-cases,
}
use aipx.Prelude.Int.{ℤ, pos}
use aipx.Prelude.Dict.{lookup, lookup-insert_self}
use aipx.Float.{FloatOps}
use aipx.Oms.Order.{Order}
use aipx.Oms.Risk.Error.{duplicate_detected}
use aipx.Oms.Risk.Rules.{
  Cached, Redis, RiskEnv, FingerprintData, live, set_expiry, generate_fingerprint, check_duplicate,
  record_fingerprint, validate_duplicate,
}

-- What Redis has dropped by now it has dropped later too.
live_later :
    (now now' : ℕ) (c : Option Cached) → now ≤ now' → live now c ≡ none → live now' c ≡ none
live_later now now' none h e = refl
live_later now now' (some c) h e = ground arith

module _ {F : Type 0} (fl : FloatOps F) (digest : FingerprintData → String) where
  abbrev pub fingerprint_of : Order F → String
  fingerprint_of o = generate_fingerprint fl digest o

  pub check_recorded :
      (env env' : RiskEnv) (window : ℕ) (o o' : Order F) (r : Redis)
      → env.write_up ≡ true
      → env'.read_up ≡ true
      → fingerprint_of o' ≡ fingerprint_of o
      → env'.now < env.now + suc window * 1000000000
      → check_duplicate fl digest env' o' (record_fingerprint fl digest env (pos (suc window)) o r)
        ≡ some duplicate_detected
  unfolding check_duplicate record_fingerprint
  check_recorded env env' window o o' r up up' same early =
      let entry : Cached = record {
        value = o.id;
        expires_at = set_expiry env.now (pos (suc window));
      } in
      ground (arith, lookup-insert_self (fingerprint_of o) entry r.fingerprint)

  check_expired :
      (env env' : RiskEnv) (window : ℕ) (o o' : Order F) (r : Redis)
      → env.write_up ≡ true
      → env'.read_up ≡ true
      → fingerprint_of o' ≡ fingerprint_of o
      → env.now + suc window * 1000000000 ≤ env'.now
      → check_duplicate fl digest env' o' (record_fingerprint fl digest env (pos (suc window)) o r)
        ≡ none
  unfolding check_duplicate record_fingerprint
  check_expired env env' window o o' r up up' same late =
      let entry : Cached = record {
        value = o.id;
        expires_at = set_expiry env.now (pos (suc window));
      } in
      ground (arith, lookup-insert_self (fingerprint_of o) entry r.fingerprint)

  -- The result of the whole rule is that of its test.
  pub validate_duplicate-result :
      (env : RiskEnv) (window : ℤ) (o : Order F) (r : Redis)
      → (validate_duplicate fl digest env window o r).0 ≡ check_duplicate fl digest env o r
  unfolding validate_duplicate
  validate_duplicate-result env window o r =
      elim (Option-cases (check_duplicate fl digest env o r)) [
        | inl e ↦ rw (e, validate_duplicate)
        | inr (x, e) ↦ rw (e, validate_duplicate)
      ]

  -- A rule that passes has recorded the fingerprint.
  pub validate_duplicate-passed :
      (env : RiskEnv) (window : ℤ) (o : Order F) (r : Redis)
      → check_duplicate fl digest env o r ≡ none
      → validate_duplicate fl digest env window o r
        ≡ (none, record_fingerprint fl digest env window o r)
  unfolding validate_duplicate
  validate_duplicate-passed env window o r e = rw (e, validate_duplicate)

  -- Once the check has passed an order, Redis taking the write, every order with the same
  -- fingerprint (the same user, symbol, side, price text and quantity) is refused as a duplicate
  -- until the window of a second or more has passed; and the first order after the window passes.
  pub duplicate_within_window :
      (env env' : RiskEnv) (window : ℕ) (o o' : Order F) (r : Redis)
      → env.write_up ≡ true
      → env'.read_up ≡ true
      → fingerprint_of o' ≡ fingerprint_of o
      → (validate_duplicate fl digest env (pos (suc window)) o r).0 ≡ none
      → let r' = (validate_duplicate fl digest env (pos (suc window)) o r).1 in
        let result = (validate_duplicate fl digest env' (pos (suc window)) o' r').0 in
        (env'.now < env.now + suc window * 1000000000 → result ≡ some duplicate_detected)
        × (env.now + suc window * 1000000000 ≤ env'.now → result ≡ none)
  duplicate_within_window env env' window o o' r up up' same passed =
      let w = pos (suc window) in
      let checked : check_duplicate fl digest env o r ≡ none =
        rw validate_duplicate-result at passed in
      rw (validate_duplicate-passed env w o r checked) (
        λ early.
            validate_duplicate-result env' w o' (record_fingerprint fl digest env w o r)
            ∙ check_recorded env env' window o o' r up up' same early,
        λ late.
            validate_duplicate-result env' w o' (record_fingerprint fl digest env w o r)
            ∙ check_expired env env' window o o' r up up' same late,
      )

  -- The check and the write are two commands: where two validations of the same order both check
  -- before either writes, the second passes as well.
  pub duplicate_race :
      (env env' : RiskEnv) (window : ℤ) (o o' : Order F) (r : Redis)
      → env.read_up ≡ true
      → env'.read_up ≡ true
      → env.now ≤ env'.now
      → fingerprint_of o' ≡ fingerprint_of o
      → check_duplicate fl digest env o r ≡ none
      → check_duplicate fl digest env' o' r ≡ none
  unfolding check_duplicate
  duplicate_race env env' window o o' r up up' later same passed =
      rw (same, check_duplicate)
        (ground (arith, live_later env.now env'.now (lookup (fingerprint_of o) r.fingerprint)))
