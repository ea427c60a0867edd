-- ===== src/Oms/Repository/Updates.antt =====
-- What the statements of order_repo.go keep true of the tables.
use aipx.Prelude.{
  ℕ, String, str_eq, eq_iff, true, ◌&&◌, none, some, List, [], ◌∷◌, ◌++◌, ◌≡◌, refl, ◌∙◌, arith,
  Bool-cases, Option-cases, inl, inr, if◌then◌else◌,
}
use aipx.Prelude.Int.{ℤ}
use aipx.Prelude.Dict.{lookup, insert, lookup-insert}
use aipx.Oms.Order.{Order, OrderStatus, pending, cancelled, same_status, Reason, OrderAuditLog}
use aipx.Oms.Repository.{
  Db, DbEnv, row_ok, audit_change, update_row, create_order, update_order_status,
  update_order_execution, cancel_order, with_status, with_execution, is_free,
}

-- The status that the audit log last gave an order, which was pending before its first entry.
unfoldable pub latest : OrderStatus → String → List OrderAuditLog → OrderStatus
latest s k [] = s
latest s k (e ∷ es) = latest (if str_eq e.order_id k then e.status else s) k es

latest-append :
    (s : OrderStatus) (k : String) (log : List OrderAuditLog) (e : OrderAuditLog)
    → latest s k (log ++ e ∷ []) ≡ (if str_eq e.order_id k then e.status else latest s k log)
unfolding latest
latest-append s k [] e = refl
latest-append s k (x ∷ xs) e = latest-append (if str_eq x.order_id k then x.status else s) k xs e

same_status-eq : (s t : OrderStatus) → same_status s t ≡ true → s ≡ t
same_status-eq s t h = ground arith

module _ {F : Type 0} where
  -- Rows are found under their id and pass the table's checks, and the audit log tells each
  -- order's status.
  pub record IsConsistent (db : Db F) : Type 0 where
    pub keyed : (k : String) (o : Order F) → lookup k db.orders ≡ some o → o.id ≡ k
    pub checked : (k : String) (o : Order F) → lookup k db.orders ≡ some o → row_ok o ≡ true
    pub matched :
        (k : String) (o : Order F)
        → lookup k db.orders ≡ some o
        → o.status ≡ latest pending k db.audit
    pub fresh : (k : String) → lookup k db.orders ≡ none → latest pending k db.audit ≡ pending

  latest-audit_change :
      (now : ℕ) (old new : Order F) (log : List OrderAuditLog) (k : String)
      → old.status ≡ latest pending new.id log
      → latest pending k (audit_change now old new log)
        ≡ (if str_eq new.id k then new.status else latest pending k log)
  latest-audit_change now old new log k h = ground (
    arith,
    eq_iff new.id k,
    same_status-eq old.status new.status,
    latest-append pending k log (record {
      order_id = new.id;
      status = new.status;
      reason = new.reject_reason;
      created_at = now;
    }),
  )

  -- A row written under its own id, with the log that fits.
  put-IsConsistent :
      (id : String) (new : Order F) (log : List OrderAuditLog) (db : Db F)
      → IsConsistent db
      → new.id ≡ id
      → row_ok new ≡ true
      → ((k : String)
          → latest pending k log ≡ (if str_eq k id then new.status else latest pending k db.audit))
      → IsConsistent (record { orders = insert id new db.orders; audit = log })
  put-IsConsistent id new log db c own passes fits = record {
    keyed = λ k o h. ground (arith, eq_iff k id, lookup-insert k id new db.orders, c.keyed k o);
    checked = λ k o h. ground (arith, lookup-insert k id new db.orders, c.checked k o);
    matched = λ k o h. ground (arith, lookup-insert k id new db.orders, c.matched k o, fits k);
    fresh = λ k h. ground (arith, lookup-insert k id new db.orders, c.fresh k, fits k);
  }

  -- Every `UPDATE` of one row, whether it succeeds, finds no row, or is refused, keeps the tables
  -- consistent.
  pub update_row-IsConsistent :
      (env : DbEnv) (id : String) (f : Order F → Order F) (db : Db F)
      → ((o : Order F) → (f o).id ≡ o.id)
      → IsConsistent db
      → IsConsistent (update_row env id f db).1
  unfolding update_row
  update_row-IsConsistent env id f db same_id c = elim (Option-cases (lookup id db.orders)) [
    | inl e ↦ rw (e, update_row) c
    | inr (old, e) ↦
        let new : Order F = record (f old) { updated_at = env.now } in
        let own : new.id ≡ id = same_id old ∙ c.keyed id old e in
        let told : old.status ≡ latest pending new.id db.audit = rw own (c.matched id old e) in
        elim (Bool-cases (env.up && row_ok new)) [
          | inl ok ↦
              rw (e, update_row)
                (rw ok (
                  put-IsConsistent id new (audit_change env.now old new db.audit) db c own
                    (ground arith)
                    (λ k. ground (
                      arith,
                      own,
                      eq_iff new.id k,
                      eq_iff k id,
                      latest-audit_change env.now old new db.audit k told,
                    ))))
          | inr refused ↦ rw (e, update_row) (rw refused c)
        ]
  ]

  -- `CreateOrder` of a pending order keeps the tables consistent, and so does a refused one.
  pub create_order-IsConsistent :
      (env : DbEnv) (id : String) (order : Order F) (db : Db F)
      → order.status ≡ pending
      → IsConsistent db
      → IsConsistent (create_order env id order db).2
  unfolding create_order
  create_order-IsConsistent env id order db p c =
      let row : Order F = record order {
        id = id;
        broker_order_id = none;
        filled_price = none;
        filled_quantity = none;
        reject_reason = none;
        created_at = env.now;
        updated_at = env.now;
      } in
      elim (Bool-cases (env.up && row_ok row && is_free (lookup id db.orders))) [
        | inl ok ↦ rw ok (
            put-IsConsistent id row db.audit db c refl (ground arith)
              (λ k. ground (arith, eq_iff k id, c.fresh id)))
        | inr refused ↦ rw refused c
      ]

  pub update_order_status-IsConsistent :
      (env : DbEnv) (id : String) (status : OrderStatus) (reason : Reason) (db : Db F)
      → IsConsistent db
      → IsConsistent (update_order_status env id status reason db).1
  unfolding update_order_status
  update_order_status-IsConsistent env id status reason db c =
      update_row-IsConsistent env id (with_status status reason) db (λ o. refl) c

  pub update_order_execution-IsConsistent :
      (env : DbEnv) (id broker_id : String) (price : F) (quantity : ℤ) (db : Db F)
      → IsConsistent db
      → IsConsistent (update_order_execution env id broker_id price quantity db).1
  unfolding update_order_execution
  update_order_execution-IsConsistent env id broker_id price quantity db c =
      update_row-IsConsistent env id (with_execution broker_id price quantity) db (λ o. refl) c

  pub cancel_order-IsConsistent :
      (env : DbEnv) (id : String) (reason : Reason) (db : Db F)
      → IsConsistent db
      → IsConsistent (cancel_order env id reason db).1
  unfolding cancel_order
  cancel_order-IsConsistent env id reason db c =
      update_order_status-IsConsistent env id cancelled reason db c
