-- ===== src/Oms/Repository/Runs.antt =====
-- Sequences of the statements of order_repo.go.
use aipx.Prelude.{String, List, [], ◌∷◌, ◌≡◌, refl}
use aipx.Prelude.Int.{ℤ}
use aipx.Prelude.Dict.{lookup}
use aipx.Oms.Order.{Order, OrderStatus, pending, Reason}
use aipx.Oms.Repository.{
  Db, DbEnv, create_order, update_order_status, update_order_execution, cancel_order,
}
use aipx.Oms.Repository.Updates.{
  latest, IsConsistent, create_order-IsConsistent, update_order_status-IsConsistent,
  update_order_execution-IsConsistent, cancel_order-IsConsistent,
}

-- A write that the repository sends to the database.
pub data Statement (F : Type 0) : Type 0 where
  create : String → Order F → Statement F
  set_status : String → OrderStatus → Reason → Statement F
  set_execution : String → String → F → ℤ → Statement F
  cancel : String → Reason → Statement F

module _ {F : Type 0} where
  pub apply : DbEnv → Statement F → Db F → Db F
  apply env (create id order) db = (create_order env id order db).2
  apply env (set_status id status reason) db = (update_order_status env id status reason db).1
  apply env (set_execution id broker_id price quantity) db =
      (update_order_execution env id broker_id price quantity db).1
  apply env (cancel id reason) db = (cancel_order env id reason db).1

  -- The code creates orders as pending only (`protoToOrder`).
  abbrev pub CreatesPending : Statement F → Type 0
  CreatesPending (create id order) = order.status ≡ pending
  CreatesPending _ = Unit

  apply-IsConsistent :
      (env : DbEnv) (st : Statement F) (db : Db F)
      → CreatesPending st
      → IsConsistent db
      → IsConsistent (apply env st db)
  unfolding apply
  apply-IsConsistent env (create id order) db p c = create_order-IsConsistent env id order db p c
  apply-IsConsistent env (set_status id status reason) db p c =
      update_order_status-IsConsistent env id status reason db c
  apply-IsConsistent env (set_execution id broker_id price quantity) db p c =
      update_order_execution-IsConsistent env id broker_id price quantity db c
  apply-IsConsistent env (cancel id reason) db p c = cancel_order-IsConsistent env id reason db c

  pub run : List (DbEnv × Statement F) → Db F → Db F
  run [] db = db
  run ((env, st) ∷ rest) db = run rest (apply env st db)

  abbrev pub AllPending : List (DbEnv × Statement F) → Type 0
  AllPending [] = Unit
  AllPending ((env, st) ∷ rest) = CreatesPending st × AllPending rest

  -- After any statements, refused ones included, on consistent tables, where orders are created as
  -- pending: each row stands under its own id and passes the table's checks, and its status is the
  -- one that the audit log gave it last, or pending where the log has no entry for it.
  pub run-IsConsistent :
      (sts : List (DbEnv × Statement F)) (db : Db F)
      → AllPending sts
      → IsConsistent db
      → IsConsistent (run sts db)
  unfolding run
  run-IsConsistent [] db p c = c
  run-IsConsistent ((env, st) ∷ rest) db p c =
      run-IsConsistent rest (apply env st db) p.1 (apply-IsConsistent env st db p.0 c)

abbrev pub empty_db : {F : Type 0} → Db F
empty_db = record { orders = []; audit = [] }

pub empty_db-IsConsistent : {F : Type 0} → IsConsistent {F = F} empty_db
unfolding lookup latest
empty_db-IsConsistent = record {
  keyed = λ k o h. cc;
  checked = λ k o h. cc;
  matched = λ k o h. cc;
  fresh = λ k h. refl;
}
