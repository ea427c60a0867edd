-- ===== src/Oms/Repository/Effects.antt =====
-- What the statements of order_repo.go write, when the database carries them out and when not.
use aipx.Prelude.{String, true, false, none, some, ◌≡◌, arith, ◌⊎◌, inl, inr, Option-cases}
use aipx.Prelude.Int.{ℤ, pos, ◌<ℤ◌}
use aipx.Prelude.Dict.{lookup, insert}
use aipx.Oms.Order.{Order, OrderStatus, cancelled, Reason}
use aipx.Oms.Repository.{
  Db, DbEnv, done, db_error, create_order, update_row, row_ok, audit_change, with_status,
  with_execution, update_order_status, update_order_execution, cancel_order, get_order, found,
}

-- An `UPDATE` that the database carries out.
pub update_row_done :
    {F : Type 0} (env : DbEnv) (id : String) (f : Order F → Order F) (db : Db F) (old : Order F)
    → env.up ≡ true
    → lookup id db.orders ≡ some old
    → row_ok (record (f old) { updated_at = env.now }) ≡ true
    → update_row env id f db ≡ (
      done,
      record {
        orders = insert id (record (f old) { updated_at = env.now }) db.orders;
        audit = audit_change env.now old (record (f old) { updated_at = env.now }) db.audit;
      },
    )
unfolding update_row
update_row_done env id f db old up e passes = rw (e, update_row) (rw (up, passes))

-- An `UPDATE` that the database does not get.
pub update_row_down :
    {F : Type 0} (env : DbEnv) (id : String) (f : Order F → Order F) (db : Db F)
    → env.up ≡ false
    → update_row env id f db ≡ (db_error, db)
unfolding update_row
update_row_down env id f db down = elim (Option-cases (lookup id db.orders)) [
  | inl e ↦ rw (e, update_row) (rw down)
  | inr (old, e) ↦ rw (e, update_row) (rw down)
]

module _ {F : Type 0} (env : DbEnv) (id : String) (order : Order F) (db : Db F) where
  abbrev pub stored_order : Order F
  stored_order = record order { id = id; created_at = env.now; updated_at = env.now }

  abbrev pub stored_row : Order F
  stored_row = record stored_order {
    broker_order_id = none;
    filled_price = none;
    filled_quantity = none;
    reject_reason = none;
  }

  abbrev pub stored_db : Db F
  stored_db = record { orders = insert id stored_row db.orders; audit = db.audit }

  pub create_order_done :
      env.up ≡ true
      → pos 0 <ℤ order.quantity
      → lookup id db.orders ≡ none
      → create_order env id order db ≡ (done, stored_order, stored_db)
  unfolding create_order
  create_order_done up positive free = ground arith

  -- `CreateOrder` stores the order or changes nothing.
  pub create_order-cases :
      (create_order env id order db ≡ (done, stored_order, stored_db))
      ⊎ (create_order env id order db ≡ (db_error, order, db))
  unfolding create_order
  create_order-cases = ground arith

module _ {F : Type 0} (env : DbEnv) (id : String) (db : Db F) (old : Order F) where
  -- The tables after an update of `old` to `f old`.
  abbrev pub updated : (Order F → Order F) → Db F
  updated f = record {
    orders = insert id (record (f old) { updated_at = env.now }) db.orders;
    audit = audit_change env.now old (record (f old) { updated_at = env.now }) db.audit;
  }

  pub update_order_status_done :
      (status : OrderStatus) (reason : Reason)
      → env.up ≡ true
      → lookup id db.orders ≡ some old
      → row_ok old ≡ true
      → update_order_status env id status reason db ≡ (done, updated (with_status status reason))
  unfolding update_order_status
  update_order_status_done status reason up e passes =
      update_row_done env id (with_status status reason) db old up e passes

  pub update_order_execution_done :
      (broker_id : String) (price : F) (quantity : ℤ)
      → env.up ≡ true
      → lookup id db.orders ≡ some old
      → row_ok (with_execution broker_id price quantity old) ≡ true
      → update_order_execution env id broker_id price quantity db
        ≡ (done, updated (with_execution broker_id price quantity))
  unfolding update_order_execution
  update_order_execution_done broker_id price quantity up e passes =
      update_row_done env id (with_execution broker_id price quantity) db old up e passes

module _ {F : Type 0} (env : DbEnv) (id : String) (db : Db F) where
  pub update_order_status_down :
      (status : OrderStatus) (reason : Reason)
      → env.up ≡ false
      → update_order_status env id status reason db ≡ (db_error, db)
  unfolding update_order_status
  update_order_status_down status reason down =
      update_row_down env id (with_status status reason) db down

  pub update_order_execution_down :
      (broker_id : String) (price : F) (quantity : ℤ)
      → env.up ≡ false
      → update_order_execution env id broker_id price quantity db ≡ (db_error, db)
  unfolding update_order_execution
  update_order_execution_down broker_id price quantity down =
      update_row_down env id (with_execution broker_id price quantity) db down

module _ {F : Type 0} (env : DbEnv) (id : String) (db : Db F) (o : Order F) where
  pub cancel_order_done :
      (reason : Reason)
      → env.up ≡ true
      → lookup id db.orders ≡ some o
      → row_ok o ≡ true
      → cancel_order env id reason db ≡ (done, updated env id db o (with_status cancelled reason))
  unfolding cancel_order
  cancel_order_done reason up e passes =
      update_order_status_done env id db o cancelled reason up e passes

  pub get_order_up : env.up ≡ true → lookup id db.orders ≡ some o → get_order env id db ≡ found o
  unfolding get_order
  get_order_up up e = rw (up, get_order) (rw e)
