-- ===== src/Oms/Executor/Cancellation.antt =====
-- What `Cancel` of order_executor.go does.
use aipx.Prelude.{String, true, none, some, List, [], ◌∷◌, ◌++◌, ◌≡◌, ◌≢◌, refl, ◌⊎◌, inl, inr}
use aipx.Prelude.Dict.{lookup, lookup-insert_self, lookup-insert_ne}
use aipx.Oms.Order.{Order, OrderStatus, sent, filled, rejected, cancelled, pending, given}
use aipx.Oms.Repository.{
  RepoResult, done, order_not_found, db_error, get_order, GetResult, found, missing, failed,
  cancel_order, with_status, row_ok,
}
use aipx.Oms.Repository.Updates.{IsConsistent, cancel_order-IsConsistent}
use aipx.Oms.Repository.Effects.{updated, cancel_order_done, get_order_up}
use aipx.Oms.Executor.{
  World, CancelEnv, order_cancelled, cancel, cancel_open, cancel_by_status, order_event,
  publish_order_event,
}

RepoResult-cases : (r : RepoResult) → (r ≡ done) ⊎ ((r ≡ order_not_found) ⊎ (r ≡ db_error))
RepoResult-cases done = inl refl
RepoResult-cases order_not_found = inr (inl refl)
RepoResult-cases db_error = inr (inr refl)

module _ {F : Type 0} (zero : F) (env : CancelEnv) (id reason : String) (w : World F) where
  -- The row of an order that has been cancelled.
  abbrev pub cancelled_row : Order F → Order F
  cancelled_row o = record (with_status cancelled (given reason) o) {
    updated_at = env.update_env.now;
  }

  -- What the broker has been asked to cancel.
  abbrev pub cancels_after : Order F → List String
  cancels_after o = elim o.broker_order_id [ none ↦ w.cancels | some b ↦ w.cancels ++ b ∷ [] ]

  -- The second half of `Cancel`, for the order `o` that its first half has read and the row `row`
  -- that is stored by now.
  pub cancel_open_done :
      (o row : Order F)
      → env.update_env.up ≡ true
      → lookup id w.db.orders ≡ some row
      → row_ok row ≡ true
      → cancel_open zero env id reason o w ≡ (
        order_cancelled,
        record {
          db = updated env.update_env id w.db row (with_status cancelled (given reason));
          requests = w.requests;
          cancels = cancels_after o;
          events = publish_order_event zero env.kafka_up o cancelled (given reason) w.events;
        },
      )
  unfolding cancel_open
  cancel_open_done o row up e passes =
      rw (cancel_order_done env.update_env id w.db row (given reason) up e passes, cancel_open)
        (rw (cancel_order_done env.update_env id w.db row (given reason) up e passes))

  cancel_of_found :
      (o : Order F)
      → env.get_env.up ≡ true
      → lookup id w.db.orders ≡ some o
      → cancel zero env id reason w ≡ cancel_by_status zero o.status env id reason o w
  unfolding cancel
  cancel_of_found o up e = rw (get_order_up env.get_env id w.db o up e, cancel)

  cancel_live :
      (o : Order F)
      → (o.status ≡ pending) ⊎ (o.status ≡ sent)
      → cancel_by_status zero o.status env id reason o w ≡ cancel_open zero env id reason o w
  unfolding cancel_by_status
  cancel_live o (inl h) = rw (h, cancel_by_status)
  cancel_live o (inr h) = rw (h, cancel_by_status)

  -- Cancelling a pending or sent order, every part being up: its row ends as cancelled, no other
  -- row changes, one event says cancelled, and the broker is asked just where the order has a
  -- broker's id.
  pub cancel_pending_or_sent :
      (o : Order F)
      → env.get_env.up ≡ true
      → env.update_env.up ≡ true
      → env.kafka_up ≡ true
      → lookup id w.db.orders ≡ some o
      → row_ok o ≡ true
      → (o.status ≡ pending) ⊎ (o.status ≡ sent)
      → let (result, w') = cancel zero env id reason w in
        (result ≡ order_cancelled)
        × (lookup id w'.db.orders ≡ some (cancelled_row o))
        × ((cancelled_row o).status ≡ cancelled)
        × ((k : String) → k ≢ id → lookup k w'.db.orders ≡ lookup k w.db.orders)
        × (w'.cancels ≡ cancels_after o)
        × (w'.events ≡ w.events ++ order_event zero o cancelled (given reason) ∷ [])
  unfolding publish_order_event
  cancel_pending_or_sent o up up' kafka e passes live = rw (cancel_of_found o up e) (
      rw (cancel_live o live) (
        rw (cancel_open_done o o up' e passes) (
          refl,
          lookup-insert_self id (cancelled_row o) w.db.orders,
          refl,
          λ k h. lookup-insert_ne k id (cancelled_row o) w.db.orders h,
          refl,
          rw kafka,
        )))

  -- Where the order is filled between the two halves of `Cancel`, the second half still overwrites
  -- the row: the filled order ends as cancelled.
  pub cancel_overwrites_fill :
      (o row : Order F)
      → env.update_env.up ≡ true
      → lookup id w.db.orders ≡ some row
      → row_ok row ≡ true
      → row.status ≡ filled
      → let (result, w') = cancel_open zero env id reason o w in
        (result ≡ order_cancelled)
        × (lookup id w'.db.orders ≡ some (cancelled_row row))
        × ((cancelled_row row).status ≡ cancelled)
  cancel_overwrites_fill o row up e passes h =
      rw (cancel_open_done o row up e passes)
        (refl, lookup-insert_self id (cancelled_row row) w.db.orders, refl)

  cancel_open-IsConsistent :
      (o : Order F) → IsConsistent w.db → IsConsistent (cancel_open zero env id reason o w).1.db
  unfolding cancel_open
  cancel_open-IsConsistent o c =
      let kept = cancel_order-IsConsistent env.update_env id (given reason) w.db c in
      elim (RepoResult-cases (cancel_order env.update_env id (given reason) w.db).0) [
        | inl e ↦ rw (e, cancel_open) kept
        | inr (inl e) ↦ rw (e, cancel_open) kept
        | inr (inr e) ↦ rw (e, cancel_open) kept
      ]

  cancel_by_status-IsConsistent :
      (s : OrderStatus) (o : Order F)
      → IsConsistent w.db
      → IsConsistent (cancel_by_status zero s env id reason o w).1.db
  unfolding cancel_by_status
  cancel_by_status-IsConsistent filled o c = c
  cancel_by_status-IsConsistent cancelled o c = c
  cancel_by_status-IsConsistent rejected o c = c
  cancel_by_status-IsConsistent pending o c = cancel_open-IsConsistent o c
  cancel_by_status-IsConsistent sent o c = cancel_open-IsConsistent o c

  after_get-IsConsistent :
      (g : GetResult F)
      → get_order env.get_env id w.db ≡ g
      → IsConsistent w.db
      → IsConsistent (cancel zero env id reason w).1.db
  unfolding cancel
  after_get-IsConsistent (found o) e c = rw (e, cancel) (cancel_by_status-IsConsistent o.status o c)
  after_get-IsConsistent missing e c = rw (e, cancel) c
  after_get-IsConsistent failed e c = rw (e, cancel) c

  -- `Cancel` keeps the tables consistent on every branch.
  pub cancel-IsConsistent : IsConsistent w.db → IsConsistent (cancel zero env id reason w).1.db
  cancel-IsConsistent c = after_get-IsConsistent (get_order env.get_env id w.db) refl c
