-- ===== src/Notification/Manager/Weights.antt =====
-- Which counter of manager.go each action of its goroutines counts up.
use aipx.Prelude.{
  ℕ, suc, ◌+◌, String, str_eq, eq_iff, Bool, true, false, Option, none, some, List, [], ◌∷◌, ◌++◌,
  ◌≡◌, refl, ap, arith, Option-cases, Bool-cases, inl, inr,
}
use aipx.Prelude.Dict.{Dict, lookup, lookup-insert}
use aipx.Notification.Manager.{bump}
use aipx.Notification.Manager.Counts.{raise}
use aipx.Notification.Manager.Sends.{
  Action, add_sent, add_failed, add_success, bump_successes, bump_failures, put_error, Sends,
  perform,
}

abbrev pub one_if : Bool → ℕ
one_if true = 1
one_if false = 0

same_option : (o : Option ℕ) → o ≡ raise 0 o
same_option none = refl
same_option (some n) = ap some (omega arith)

one_more : (n : ℕ) → some (suc n) ≡ raise 1 (some n)
one_more n = ap some (omega arith)

bump_raises :
    (name k : String) (d : Dict ℕ)
    → lookup name (bump k d) ≡ raise (one_if (str_eq name k)) (lookup name d)
bump_raises name k d = elim (Option-cases (lookup k d)) [
  | inl e ↦
      rw (e, bump)
        (elim (Bool-cases (str_eq name k)) [
          | inl same ↦
              let there : lookup name d ≡ none = rw ((eq_iff name k).0 same) e in rw there refl
          | inr other ↦ rw other (same_option (lookup name d))
        ])
  | inr (n, e) ↦
      rw (e, bump)
        (rw lookup-insert (elim (Bool-cases (str_eq name k)) [
          | inl same ↦
              let there : lookup name d ≡ some n = rw ((eq_iff name k).0 same) e in
              rw (there, same) (one_more n)
          | inr other ↦ rw other (same_option (lookup name d))
        ]))
]

module _ {E : Type 0} where
  -- The errors that name this channel.
  abbrev pub errors_of : String → List (String × E) → ℕ
  errors_of name [] = 0
  errors_of name (e ∷ es) = one_if (str_eq name e.0) + errors_of name es

  errors_of-append :
      (name : String) (xs ys : List (String × E))
      → errors_of name (xs ++ ys) ≡ errors_of name xs + errors_of name ys
  errors_of-append name [] ys = omega arith
  errors_of-append name (x ∷ xs) ys = omega (arith, errors_of-append name xs ys)

  abbrev pub weight_sent : Action E → ℕ
  weight_sent add_sent = 1
  weight_sent _ = 0

  abbrev pub weight_failed : Action E → ℕ
  weight_failed add_failed = 1
  weight_failed _ = 0

  abbrev pub weight_success : Action E → ℕ
  weight_success add_success = 1
  weight_success _ = 0

  abbrev pub weight_successes : String → Action E → ℕ
  weight_successes name (bump_successes k) = one_if (str_eq name k)
  weight_successes name _ = 0

  abbrev pub weight_failures : String → Action E → ℕ
  weight_failures name (bump_failures k) = one_if (str_eq name k)
  weight_failures name _ = 0

  abbrev pub weight_error : String → Action E → ℕ
  weight_error name (put_error k e) = one_if (str_eq name k)
  weight_error name _ = 0

  pub adds_sent :
      (a : Action E) (s : Sends E) (ts : List (List (Action E)))
      → some (perform a (record s { tasks = ts })).manager.total_sent
        ≡ raise (weight_sent a) (some s.manager.total_sent)
  adds_sent add_sent s ts = one_more (s.manager.total_sent)
  adds_sent add_failed s ts = same_option (some s.manager.total_sent)
  adds_sent add_success s ts = same_option (some s.manager.total_sent)
  adds_sent (bump_successes k) s ts = same_option (some s.manager.total_sent)
  adds_sent (bump_failures k) s ts = same_option (some s.manager.total_sent)
  adds_sent (put_error k e) s ts = same_option (some s.manager.total_sent)

  pub adds_failed :
      (a : Action E) (s : Sends E) (ts : List (List (Action E)))
      → some (perform a (record s { tasks = ts })).manager.total_failed
        ≡ raise (weight_failed a) (some s.manager.total_failed)
  adds_failed add_sent s ts = same_option (some s.manager.total_failed)
  adds_failed add_failed s ts = one_more (s.manager.total_failed)
  adds_failed add_success s ts = same_option (some s.manager.total_failed)
  adds_failed (bump_successes k) s ts = same_option (some s.manager.total_failed)
  adds_failed (bump_failures k) s ts = same_option (some s.manager.total_failed)
  adds_failed (put_error k e) s ts = same_option (some s.manager.total_failed)

  pub adds_success :
      (a : Action E) (s : Sends E) (ts : List (List (Action E)))
      → some (perform a (record s { tasks = ts })).success_count
        ≡ raise (weight_success a) (some s.success_count)
  adds_success add_sent s ts = same_option (some s.success_count)
  adds_success add_failed s ts = same_option (some s.success_count)
  adds_success add_success s ts = one_more (s.success_count)
  adds_success (bump_successes k) s ts = same_option (some s.success_count)
  adds_success (bump_failures k) s ts = same_option (some s.success_count)
  adds_success (put_error k e) s ts = same_option (some s.success_count)

  pub adds_successes :
      (name : String) (a : Action E) (s : Sends E) (ts : List (List (Action E)))
      → lookup name (perform a (record s { tasks = ts })).manager.channel_successes
        ≡ raise (weight_successes name a) (lookup name s.manager.channel_successes)
  adds_successes name add_sent s ts = same_option (lookup name s.manager.channel_successes)
  adds_successes name add_failed s ts = same_option (lookup name s.manager.channel_successes)
  adds_successes name add_success s ts = same_option (lookup name s.manager.channel_successes)
  adds_successes name (bump_successes k) s ts = bump_raises name k s.manager.channel_successes
  adds_successes name (bump_failures k) s ts = same_option (lookup name s.manager.channel_successes)
  adds_successes name (put_error k e) s ts = same_option (lookup name s.manager.channel_successes)

  pub adds_failures :
      (name : String) (a : Action E) (s : Sends E) (ts : List (List (Action E)))
      → lookup name (perform a (record s { tasks = ts })).manager.channel_failures
        ≡ raise (weight_failures name a) (lookup name s.manager.channel_failures)
  adds_failures name add_sent s ts = same_option (lookup name s.manager.channel_failures)
  adds_failures name add_failed s ts = same_option (lookup name s.manager.channel_failures)
  adds_failures name add_success s ts = same_option (lookup name s.manager.channel_failures)
  adds_failures name (bump_successes k) s ts = same_option (lookup name s.manager.channel_failures)
  adds_failures name (bump_failures k) s ts = bump_raises name k s.manager.channel_failures
  adds_failures name (put_error k e) s ts = same_option (lookup name s.manager.channel_failures)

  pub adds_error :
      (name : String) (a : Action E) (s : Sends E) (ts : List (List (Action E)))
      → some (errors_of name (perform a (record s { tasks = ts })).errors)
        ≡ raise (weight_error name a) (some (errors_of name s.errors))
  adds_error name add_sent s ts = same_option (some (errors_of name s.errors))
  adds_error name add_failed s ts = same_option (some (errors_of name s.errors))
  adds_error name add_success s ts = same_option (some (errors_of name s.errors))
  adds_error name (bump_successes k) s ts = same_option (some (errors_of name s.errors))
  adds_error name (bump_failures k) s ts = same_option (some (errors_of name s.errors))
  adds_error name (put_error k e) s ts =
      ap some (omega (arith, errors_of-append name s.errors ((k, e) ∷ [])))
