-- ===== src/Tests/Retention.antt =====
-- The retention's theorems on concrete rows.
use finflow.Base.{
  ℕ, ◌+◌, ◌*◌, ◌≡◌, refl, arith, false, String, str_eq, if◌then◌else◌, List, [], ◌∷◌,
}
use finflow.Base.Int.{pos}
use finflow.Go.Errors.{message, ok}
use finflow.Postgres.{success, failed}
use finflow.Ledger.Tables.{ConsumedEvent}
use finflow.Retention.{consumed_rule, run_rule}
use finflow.Retention.Complete.{run_rule_completes}
use finflow.Retention.Command.{OperationalDb, run}
use finflow.Retention.Guarded.{IsGuarded, run-IsGuarded}
use finflow.Tests.Inputs.{ascii, world}

abbrev at : ℕ → ConsumedEvent
at t = record {
  event_id = "e";
  event_type = "payment.created";
  aggregate_id = "p1";
  consumed_at = t;
}

abbrev rows : List ConsumedEvent
rows = at 1 ∷ at 90 ∷ at 2 ∷ at 3 ∷ at 95 ∷ []

run_rule_completes_example :
    let (r, w') = run_rule 4 (consumed_rule (pos 20)) 100 (pos 2) false (world rows []) in
    (r
      ≡ ok (record { name = "consumed_ledger_events"; eligible = 3; deleted = 3; dry_run = false }))
    × (w'.db ≡ at 90 ∷ at 95 ∷ [])
run_rule_completes_example =
    run_rule_completes 4 (consumed_rule (pos 20)) 100 (pos 2) (world rows []) refl refl refl
      (omega arith)

abbrev operational : OperationalDb
operational = record { outbox = []; consumed = rows; replays = []; locked = false }

-- A run that deletes, in batches of two.
abbrev deleting : String → String
deleting key =
    if str_eq key "DATABASE_URL"
    then "postgres://db"
    else if str_eq key "RETENTION_DRY_RUN"
    then "false"
    else if str_eq key "RETENTION_CONFIRM"
    then "DELETE_OPERATIONAL_DATA"
    else if str_eq key "RETENTION_BATCH_SIZE"
    then "2"
    else ""

abbrev late : ℕ → ℕ
late n = 90 * 24 * 3600000000000 + 80

-- The lock, the count and the deletion of the outbox, and the count of the consumed events succeed; the
-- second batch of those fails.
run-IsGuarded_example :
    IsGuarded 4 late ascii deleting
      (λ url. ok tt)
      (ok tt)
      operational
      (run 4 late ascii deleting
        (λ url. ok tt)
        (ok tt)
        (world operational (
          success
          ∷ success
          ∷ success
          ∷ success
          ∷ success
          ∷ failed (message "connection reset")
          ∷ []))).1.db
run-IsGuarded_example =
    run-IsGuarded 4 late ascii deleting (λ url. ok tt) (ok tt)
      (world operational (
        success ∷ success ∷ success ∷ success ∷ success ∷ failed (message "connection reset") ∷ []))
