-- ===== src/Oms/Repository.antt =====
-- services/order-management-service/internal/repository/order_repo.go: the SQL statements as
-- functions on the tables, with the checks and triggers of migrations/001_orders.sql.
pub mod Updates
pub mod Runs
pub mod Effects
pub mod Queries
mod Tests
use aipx.Prelude.{
  ℕ, ◌+◌, String, str_eq, Bool, true, false, ◌&&◌, ◌||◌, Option, none, some, List, [], ◌∷◌, ◌++◌,
  leb, if◌then◌else◌, take,
}
use aipx.Prelude.Int.{ℤ, pos, leb_ℤ, ltb_ℤ}
use aipx.Prelude.Dict.{Dict, lookup, insert}
use aipx.Oms.Order.{
  Order, OrderStatus, pending, sent, filled, cancelled, same_status, Reason, given, OrderAuditLog,
}

-- The tables `orders`, by id, and `order_audit_log`, in the order of insertion.
pub record Db (F : Type 0) : Type 0 where
  pub orders : Dict (Order F)
  pub audit : List OrderAuditLog

pub data RepoResult : Type 0 where
  done order_not_found db_error : RepoResult

-- Whether the statement reaches the database, and the database's time.
pub record DbEnv : Type 0 where
  pub up : Bool
  pub now : ℕ

-- `if reason != ""`
abbrev pub reason_ptr : Reason → Option Reason
reason_ptr (given s) = if str_eq s "" then none else some (given s)
reason_ptr r = some r

pub data GetResult (F : Type 0) : Type 0 where
  found : Order F → GetResult F
  missing failed : GetResult F

abbrev pub is_open : OrderStatus → Bool
is_open pending = true
is_open sent = true
is_open _ = false

module _ {F : Type 0} where
  -- CHECK (quantity > 0)
  -- CHECK (filled_quantity >= 0 AND filled_quantity <= quantity)
  abbrev pub row_ok : Order F → Bool
  row_ok o =
      ltb_ℤ (pos 0) o.quantity
      && elim o.filled_quantity [ none ↦ true | some q ↦ leb_ℤ (pos 0) q && leb_ℤ q o.quantity ]

  -- The trigger `create_order_audit_log`.
  abbrev pub audit_change : ℕ → Order F → Order F → List OrderAuditLog → List OrderAuditLog
  audit_change now old new log =
      if same_status old.status new.status
      then log
      else log
        ++ record {
          order_id = new.id;
          status = new.status;
          reason = new.reject_reason;
          created_at = now;
        }
          ∷ []

  -- `UPDATE orders SET … WHERE id = …`, with both triggers.
  pub update_row : DbEnv → String → (Order F → Order F) → Db F → RepoResult × Db F
  update_row env id f db = elim (lookup id db.orders) [
    | none ↦ (if env.up then order_not_found else db_error, db)
    | some old ↦
        let new = record (f old) { updated_at = env.now } in
        if env.up && row_ok new
        then (
          done,
          record {
            orders = insert id new db.orders;
            audit = audit_change env.now old new db.audit;
          },
        )
        else (db_error, db)
  ]

  -- The primary key is not taken.
  abbrev pub is_free : Option (Order F) → Bool
  is_free none = true
  is_free (some o) = false

  -- `CreateOrder`: the row gets the id that the database makes, and the caller's order takes it
  -- over together with the times.
  pub create_order : DbEnv → String → Order F → Db F → RepoResult × Order F × Db F
  create_order env new_id order db =
      let row = record order {
        id = new_id;
        broker_order_id = none;
        filled_price = none;
        filled_quantity = none;
        reject_reason = none;
        created_at = env.now;
        updated_at = env.now;
      } in
      if env.up && row_ok row && is_free (lookup new_id db.orders)
      then (
        done,
        record order { id = new_id; created_at = env.now; updated_at = env.now },
        record { orders = insert new_id row db.orders; audit = db.audit },
      )
      else (db_error, order, db)

  -- `GetOrder`
  pub get_order : DbEnv → String → Db F → GetResult F
  get_order env id db =
      if env.up then elim (lookup id db.orders) [ none ↦ missing | some o ↦ found o ] else failed

  -- `SET status = $1, reject_reason = $2`
  abbrev pub with_status : OrderStatus → Reason → Order F → Order F
  with_status status reason o = record o { status = status; reject_reason = reason_ptr reason }

  -- `SET broker_order_id = $1, …, status = CASE WHEN $3 >= quantity THEN 'FILLED' ELSE status END`
  abbrev pub with_execution : String → F → ℤ → Order F → Order F
  with_execution broker_id price quantity o = record o {
    broker_order_id = some broker_id;
    filled_price = some price;
    filled_quantity = some quantity;
    status = if leb_ℤ o.quantity quantity then filled else o.status;
  }

  -- `UpdateOrderStatus`
  pub update_order_status : DbEnv → String → OrderStatus → Reason → Db F → RepoResult × Db F
  unfolding update_row
  update_order_status env id status reason db = update_row env id (with_status status reason) db

  -- `UpdateOrderExecution`
  pub update_order_execution : DbEnv → String → String → F → ℤ → Db F → RepoResult × Db F
  unfolding update_row
  update_order_execution env id broker_id price quantity db =
      update_row env id (with_execution broker_id price quantity) db

  -- `CancelOrder`
  pub cancel_order : DbEnv → String → Reason → Db F → RepoResult × Db F
  unfolding update_order_status
  cancel_order env id reason db = update_order_status env id cancelled reason db

  -- `ORDER BY created_at DESC`
  pub insert_newest : Order F → List (Order F) → List (Order F)
  insert_newest o [] = o ∷ []
  insert_newest o (p ∷ ps) =
      if leb p.created_at o.created_at then o ∷ p ∷ ps else p ∷ insert_newest o ps

  pub newest_first : List (Order F) → List (Order F)
  unfolding insert_newest
  newest_first [] = []
  newest_first (o ∷ os) = insert_newest o (newest_first os)

  -- `WHERE …`, over the rows of the table.
  pub select : (Order F → Bool) → Dict (Order F) → List (Order F)
  select test [] = []
  select test (e ∷ d) = let rest = select test d in if test e.1 then e.1 ∷ rest else rest

  -- `GetUserOrders`
  pub get_user_orders : String → ℕ → Db F → List (Order F)
  unfolding newest_first select
  get_user_orders user_id limit db =
      take limit (newest_first (select (λ o. str_eq o.user_id user_id) db.orders))

  -- `GetOrdersByStatus`
  pub get_orders_by_status : OrderStatus → ℕ → Db F → List (Order F)
  unfolding newest_first select
  get_orders_by_status status limit db =
      take limit (newest_first (select (λ o. same_status o.status status) db.orders))

  -- `GetPendingOrdersForUser`
  pub get_pending_orders_for_user : String → Db F → List (Order F)
  unfolding newest_first select
  get_pending_orders_for_user user_id db =
      newest_first (select (λ o. str_eq o.user_id user_id && is_open o.status) db.orders)

-- `GetOrderAuditLog`; the log stands in the order of `created_at`.
pub audit_of : String → List OrderAuditLog → List OrderAuditLog
audit_of id [] = []
audit_of id (e ∷ es) = let rest = audit_of id es in if str_eq e.order_id id then e ∷ rest else rest

pub get_order_audit_log : {F : Type 0} → String → Db F → List OrderAuditLog
unfolding audit_of
get_order_audit_log id db = audit_of id db.audit
