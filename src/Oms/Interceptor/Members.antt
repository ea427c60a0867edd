-- ===== src/Oms/Interceptor/Members.antt =====
-- The sets of Redis, as auth.go uses them.
use aipx.Prelude.{
  ◌≡◌, ◌≢◌, inl, inr, refl, String, str_eq, eq_iff, false, ◌||◌, List, [], ◌∷◌, arith, Bool-cases,
}
use aipx.Oms.Interceptor.Revocations.{is_member, add_member, remove_member}

pub member-add_member :
    (j k : String) (xs : List String)
    → is_member j (add_member k xs) ≡ (str_eq j k || is_member j xs)
unfolding add_member is_member
member-add_member j k xs = elim (Bool-cases (is_member k xs)) [
  | inl e ↦
      rw (add_member, e)
        (elim (Bool-cases (str_eq j k)) [
          | inl s ↦ let same : j ≡ k = (eq_iff j k).0 s in rw (s, same) e
          | inr s ↦ rw s refl
        ])
  | inr e ↦ rw (add_member, e) refl
]

pub member-remove_member :
    (j k : String) (xs : List String) → j ≢ k → is_member j (remove_member k xs) ≡ is_member j xs
unfolding remove_member is_member
member-remove_member j k [] other = refl
member-remove_member j k (x ∷ xs) other =
    ground (arith, eq_iff j x, eq_iff k x, member-remove_member j k xs other)

pub member-remove_self : (k : String) (xs : List String) → is_member k (remove_member k xs) ≡ false
unfolding remove_member is_member
member-remove_self k [] = refl
member-remove_self k (x ∷ xs) = ground (arith, member-remove_self k xs)
