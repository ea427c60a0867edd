-- ===== src/Oms/Repository/Tests.antt =====
-- The repository's theorems at concrete tables.
use aipx.Prelude.{List, [], ◌∷◌, refl}
use aipx.Prelude.Int.{ℤ, pos}
use aipx.Oms.Order.{sent, given}
use aipx.Oms.Repository.{DbEnv}
use aipx.Oms.Repository.Updates.{IsConsistent}
use aipx.Oms.Repository.Runs.{
  Statement, create, set_status, set_execution, cancel, run, run-IsConsistent, empty_db,
  empty_db-IsConsistent,
}
use aipx.Oms.Fixtures.{up_at, new_order}

abbrev day : List (DbEnv × Statement ℤ)
day =
    (up_at 1, create "o1" new_order)
    ∷ (up_at 2, set_execution "o1" "K77" (pos 7000000) (pos 10))
    ∷ (up_at 3, set_status "o1" sent (given "late"))
    ∷ (up_at 4, cancel "o1" (given ""))
    ∷ []

run-IsConsistent_example : IsConsistent (run day (empty_db {F = ℤ}))
run-IsConsistent_example =
    run-IsConsistent day empty_db (refl, (tt, (tt, (tt, tt)))) empty_db-IsConsistent
