-- ===== src/Oms/Executor/Tests.antt =====
-- The executor's theorems at concrete orders and surroundings.
use aipx.Prelude.{String, true, false, none, some, [], ◌∷◌, ◌++◌, ◌≡◌, ◌≢◌, refl, arith, ◌⊎◌, inr}
use aipx.Prelude.Int.{ℤ, pos}
use aipx.Prelude.Dict.{lookup}
use aipx.Oms.Order.{Order, sent, filled, cancelled, submitted, given}
use aipx.Oms.Repository.{DbEnv, create_order, done}
use aipx.Oms.Repository.Updates.{IsConsistent}
use aipx.Oms.Repository.Runs.{empty_db, empty_db-IsConsistent}
use aipx.Oms.Broker.{
  Outcome, breaker_open, reply, OrderResponse, convert_order_type, submit_order, SubmitResult,
  SubmitError,
}
use aipx.Oms.Executor.{
  World, ExecuteEnv, CancelEnv, executed, create_failed, order_cancelled, kis_request, execute,
  cancel, order_event,
}
use aipx.Oms.Executor.Consistency.{execute-IsConsistent}
use aipx.Oms.Executor.Submission.{execute_sent, execute_lost_updates, sent_row, stored, submission}
use aipx.Oms.Repository.Effects.{stored_row}
use aipx.Oms.Executor.Cancellation.{cancel_pending_or_sent, cancelled_row, cancels_after}
use aipx.Oms.Fixtures.{up_at, new_order, sent_order, order_with, db_with, world_with}

abbrev down : DbEnv
down = record { up = false; now = 9 }

abbrev env_with : DbEnv → DbEnv → Outcome → ExecuteEnv
env_with execution status outcome = record {
  create_env = up_at 1;
  execution_env = execution;
  status_env = status;
  new_id = "o2";
  outcome = λ n. outcome;
  kafka_up = true;
}

abbrev accepting : Outcome
accepting = Outcome.sent (reply 200 (some (record { rt_cd = "0"; odno = "K77"; msg1 = "ok" })))

abbrev all_up : ExecuteEnv
all_up = env_with (up_at 2) (up_at 3) accepting

abbrev updates_down : ExecuteEnv
updates_down = env_with down down accepting

abbrev broker_away : ExecuteEnv
broker_away = env_with (up_at 2) (up_at 3) breaker_open

abbrev response : OrderResponse ℤ
response = record {
  order_id = "K77";
  status = "SENT";
  filled_price = pos 0;
  filled_quantity = pos 0;
  message = "ok";
}

abbrev world : World ℤ
world = world_with (db_with sent_order)

o2_is_new : lookup "o2" world.db.orders ≡ none
unfolding lookup
o2_is_new = refl

o1_is_stored : (o : Order ℤ) → o.id ≡ "o1" → lookup "o1" (db_with o).orders ≡ some o
unfolding lookup
o1_is_stored o h = rw (h, lookup)

submission_accepted :
    (submission (pos 0) (pos 2) all_up new_order world).0 ≡ SubmitResult.ok response
unfolding submit_order convert_order_type kis_request
submission_accepted = refl

submission_accepted_down :
    (submission (pos 0) (pos 2) updates_down new_order world).0 ≡ SubmitResult.ok response
unfolding submit_order convert_order_type kis_request
submission_accepted_down = refl

submission_refused :
    (submission (pos 0) (pos 2) broker_away new_order world).0
    ≡ SubmitResult.err SubmitError.circuit_open
unfolding submit_order convert_order_type kis_request
submission_refused = refl

execute_sent_example :
    let (result, w') = execute (pos 0) (pos 2) all_up new_order world in
    (result ≡ executed)
    × (lookup "o2" w'.db.orders ≡ some (sent_row (pos 0) (pos 2) all_up new_order world response))
    × ((sent_row (pos 0) (pos 2) all_up new_order world response).status ≡ sent)
    × ((sent_row (pos 0) (pos 2) all_up new_order world response).broker_order_id ≡ some "K77")
    × ((sent_row (pos 0) (pos 2) all_up new_order world response).filled_quantity ≡ some (pos 0))
    × ((k : String) → k ≢ "o2" → lookup k w'.db.orders ≡ lookup k world.db.orders)
    × (w'.events
        ≡ world.events
          ++ order_event (pos 0) (stored (pos 0) (pos 2) all_up new_order world) sent submitted
            ∷ [])
    × ((order_event
          (pos 0)
          (stored (pos 0) (pos 2) all_up new_order world)
          sent
          submitted).broker_id
        ≡ "")
execute_sent_example =
    execute_sent (pos 0) (pos 2) all_up new_order world response refl refl refl refl refl
      (omega arith) o2_is_new submission_accepted

execute_lost_updates_example :
    let (result, w') = execute (pos 0) (pos 2) updates_down new_order world in
    (result ≡ executed)
    × (lookup "o2" w'.db.orders ≡ some (stored_row (up_at 1) "o2" new_order world.db))
    × (w'.requests ≡ world.requests ++ (submission (pos 0) (pos 2) updates_down new_order world).1)
execute_lost_updates_example =
    execute_lost_updates (pos 0) (pos 2) updates_down new_order world response refl refl refl
      (omega arith) o2_is_new submission_accepted_down

execute-IsConsistent_example :
    IsConsistent (execute (pos 0) (pos 2) all_up new_order (world_with empty_db)).1.db
    × (((create_order (up_at 1) "o2" new_order empty_db).0 ≡ done)
        ⊎ (execute (pos 0) (pos 2) all_up new_order (world_with empty_db)
            ≡ (create_failed, world_with empty_db)))
execute-IsConsistent_example =
    execute-IsConsistent (pos 0) (pos 2) all_up new_order (world_with empty_db) refl
      empty_db-IsConsistent

abbrev cancel_env : CancelEnv
cancel_env = record { get_env = up_at 4; update_env = up_at 5; kafka_up = true }

abbrev filled_order : Order ℤ
filled_order = order_with "o1" filled (some "K77")

cancel_pending_or_sent_example :
    let (result, w') = cancel (pos 0) cancel_env "o1" "late" world in
    (result ≡ order_cancelled)
    × (lookup "o1" w'.db.orders
        ≡ some (cancelled_row (pos 0) cancel_env "o1" "late" world sent_order))
    × ((cancelled_row (pos 0) cancel_env "o1" "late" world sent_order).status ≡ cancelled)
    × ((k : String) → k ≢ "o1" → lookup k w'.db.orders ≡ lookup k world.db.orders)
    × (w'.cancels ≡ cancels_after (pos 0) cancel_env "o1" "late" world sent_order)
    × (w'.events ≡ world.events ++ order_event (pos 0) sent_order cancelled (given "late") ∷ [])
cancel_pending_or_sent_example =
    cancel_pending_or_sent (pos 0) cancel_env "o1" "late" world sent_order refl refl refl
      (o1_is_stored sent_order refl) refl (inr refl)
