-- ===== src/Oms/Repository/Queries.antt =====
-- What the list queries of order_repo.go return.
use aipx.Prelude.{
  ℕ, zero, suc, ◌≤◌, String, str_eq, eq_iff, Bool, true, false, ◌&&◌, List, [], ◌∷◌, ◌≡◌, refl,
  arith, Bool-cases, inl, inr, leb, leb→le, length, take, length-take, ◌⊎◌,
}
use mathlib.Core.List.{Perm}
use mathlib.Core.List.Perm
use aipx.Prelude.Dict.{Dict}
use aipx.Oms.Order.{Order, pending, sent}
use aipx.Oms.Repository.{
  Db, insert_newest, newest_first, select, is_open, get_user_orders, get_pending_orders_for_user,
}

not_leb→le : (a b : ℕ) → leb a b ≡ false → b ≤ a
not_leb→le a b h = ground arith

module _ {F : Type 0} where
  -- Each order is at least as new as the next.
  abbrev pub NewerThan : ℕ → List (Order F) → Type 0
  NewerThan t [] = Unit
  NewerThan t (o ∷ os) = o.created_at ≤ t

  abbrev pub IsNewestFirst : List (Order F) → Type 0
  IsNewestFirst [] = Unit
  IsNewestFirst (o ∷ os) = NewerThan o.created_at os × IsNewestFirst os

  abbrev pub AllRows {κ} : (Order F → Type κ) → List (Order F) → Type κ
  AllRows P [] = Unit
  AllRows P (o ∷ os) = P o × AllRows P os

  insert_newest-NewerThan :
      (t : ℕ) (o : Order F) (os : List (Order F))
      → o.created_at ≤ t
      → NewerThan t os
      → NewerThan t (insert_newest o os)
  unfolding insert_newest
  insert_newest-NewerThan t o [] h k = h
  insert_newest-NewerThan t o (p ∷ ps) h k = ground arith

  insert_newest-IsNewestFirst :
      (o : Order F) (os : List (Order F)) → IsNewestFirst os → IsNewestFirst (insert_newest o os)
  unfolding insert_newest
  insert_newest-IsNewestFirst o [] h = (tt, tt)
  insert_newest-IsNewestFirst o (p ∷ ps) h = elim (Bool-cases (leb p.created_at o.created_at)) [
    | inl e ↦ rw e (leb→le p.created_at o.created_at e, h)
    | inr e ↦ rw e (
      insert_newest-NewerThan p.created_at o ps (not_leb→le p.created_at o.created_at e) h.0,
      insert_newest-IsNewestFirst o ps h.1,
    )
  ]

  newest_first-IsNewestFirst : (os : List (Order F)) → IsNewestFirst (newest_first os)
  unfolding newest_first
  newest_first-IsNewestFirst [] = tt
  newest_first-IsNewestFirst (o ∷ os) =
      insert_newest-IsNewestFirst o (newest_first os) (newest_first-IsNewestFirst os)

  insert_newest-perm : (o : Order F) (os : List (Order F)) → Perm (insert_newest o os) (o ∷ os)
  unfolding insert_newest
  insert_newest-perm o [] = Perm.refl (o ∷ [])
  insert_newest-perm o (p ∷ ps) = elim (Bool-cases (leb p.created_at o.created_at)) [
    | inl e ↦ rw e (Perm.refl (o ∷ p ∷ ps))
    | inr e ↦ rw e (Perm.trans (Perm.cons p (insert_newest-perm o ps)) (Perm.swap o p ps))
  ]

  newest_first-perm : (os : List (Order F)) → Perm (newest_first os) os
  unfolding newest_first
  newest_first-perm [] = Perm.refl []
  newest_first-perm (o ∷ os) =
      Perm.trans (insert_newest-perm o (newest_first os)) (Perm.cons o (newest_first-perm os))

  take-IsNewestFirst : (n : ℕ) (os : List (Order F)) → IsNewestFirst os → IsNewestFirst (take n os)
  take-IsNewestFirst zero os h = tt
  take-IsNewestFirst (suc n) [] h = tt
  take-IsNewestFirst (suc zero) (o ∷ os) h = (tt, tt)
  take-IsNewestFirst (suc (suc n)) (o ∷ []) h = h
  take-IsNewestFirst (suc (suc n)) (o ∷ p ∷ ps) h = (h.0, take-IsNewestFirst (suc n) (p ∷ ps) h.1)

  take-AllRows {κ} :
      (P : Order F → Type κ) (n : ℕ) (os : List (Order F)) → AllRows P os → AllRows P (take n os)
  take-AllRows P zero os h = tt
  take-AllRows P (suc n) [] h = h
  take-AllRows P (suc n) (o ∷ os) h = (h.0, take-AllRows P n os h.1)

  insert_newest-AllRows {κ} :
      (P : Order F → Type κ) (o : Order F) (os : List (Order F))
      → P o
      → AllRows P os
      → AllRows P (insert_newest o os)
  unfolding insert_newest
  insert_newest-AllRows P o [] p h = (p, tt)
  insert_newest-AllRows P o (q ∷ qs) p h = elim (Bool-cases (leb q.created_at o.created_at)) [
    | inl e ↦ rw e (p, h)
    | inr e ↦ rw e (h.0, insert_newest-AllRows P o qs p h.1)
  ]

  newest_first-AllRows {κ} :
      (P : Order F → Type κ) (os : List (Order F)) → AllRows P os → AllRows P (newest_first os)
  unfolding newest_first
  newest_first-AllRows P [] h = tt
  newest_first-AllRows P (o ∷ os) h =
      insert_newest-AllRows P o (newest_first os) h.0 (newest_first-AllRows P os h.1)

  select-AllRows :
      (test : Order F → Bool) (d : Dict (Order F)) → AllRows (λ o. test o ≡ true) (select test d)
  unfolding select
  select-AllRows test [] = tt
  select-AllRows test (e ∷ d) = elim (Bool-cases (test e.1)) [
    | inl h ↦ rw h (h, select-AllRows test d)
    | inr h ↦ rw h (select-AllRows test d)
  ]

  AllRows-mono {κ μ} :
      (P : Order F → Type κ) (Q : Order F → Type μ)
      → ((o : Order F) → P o → Q o)
      → (os : List (Order F)) → AllRows P os
      → AllRows Q os
  AllRows-mono P Q f [] h = tt
  AllRows-mono P Q f (o ∷ os) h = (f o h.0, AllRows-mono P Q f os h.1)

  open_of_user :
      (user_id : String) (o : Order F)
      → (str_eq o.user_id user_id && is_open o.status) ≡ true
      → (o.user_id ≡ user_id) × ((o.status ≡ pending) ⊎ (o.status ≡ sent))
  open_of_user user_id o h = ground (arith, eq_iff o.user_id user_id)

  -- `GetUserOrders` returns at most `limit` orders, all the user's, newest first, and they are the
  -- first of a list that holds just the user's rows.
  pub get_user_orders_page :
      (user_id : String) (limit : ℕ) (db : Db F)
      → (length (get_user_orders user_id limit db) ≤ limit)
        × IsNewestFirst (get_user_orders user_id limit db)
        × AllRows (λ o. str_eq o.user_id user_id ≡ true) (get_user_orders user_id limit db)
        × (all : List (Order F)) × (get_user_orders user_id limit db ≡ take limit all)
        × Perm all (select (λ o. str_eq o.user_id user_id) db.orders)
  unfolding get_user_orders
  get_user_orders_page user_id limit db =
      let rows = select (λ o. str_eq o.user_id user_id) db.orders in
      (
        omega (arith, length-take limit (newest_first rows)),
        take-IsNewestFirst limit (newest_first rows) (newest_first-IsNewestFirst rows),
        take-AllRows (λ o. str_eq o.user_id user_id ≡ true) limit (newest_first rows)
            (newest_first-AllRows (λ o. str_eq o.user_id user_id ≡ true) rows
              (select-AllRows (λ o. str_eq o.user_id user_id) db.orders)),
        newest_first rows,
        refl,
        newest_first-perm rows,
      )

  -- `GetPendingOrdersForUser` returns, newest first, just the user's rows that are pending or sent.
  pub get_pending_orders_for_user_rows :
      (user_id : String) (db : Db F)
      → IsNewestFirst (get_pending_orders_for_user user_id db)
        × Perm
            (get_pending_orders_for_user user_id db)
            (select (λ o. str_eq o.user_id user_id && is_open o.status) db.orders)
        × AllRows
            (λ o. (o.user_id ≡ user_id) × ((o.status ≡ pending) ⊎ (o.status ≡ sent)))
            (get_pending_orders_for_user user_id db)
  unfolding get_pending_orders_for_user
  get_pending_orders_for_user_rows user_id db =
      let test = λ (o : Order F). str_eq o.user_id user_id && is_open o.status in
      let rows = select test db.orders in
      (
        newest_first-IsNewestFirst rows,
        newest_first-perm rows,
        AllRows-mono (λ o. test o ≡ true)
            (λ o. (o.user_id ≡ user_id) × ((o.status ≡ pending) ⊎ (o.status ≡ sent)))
            (open_of_user user_id) (newest_first rows)
            (newest_first-AllRows (λ o. test o ≡ true) rows (select-AllRows test db.orders)),
      )
