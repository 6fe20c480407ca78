-- ===== src/Retention/Command.antt =====
-- `run` of services/payment-service/cmd/retention/main.go over the three tables of a database. The
-- connections are parameters, as are the times that `time.Now()` gives.
use finflow.Base.{ℕ, String, Bool, true, false, not, List, if◌then◌else◌}
use finflow.Go.Environment.{Environment}
use finflow.Go.Errors.{message, wrap, Result, ok, map_error}
use finflow.Postgres.{World, Action, pure, fail, lift, ◌>>=◌, statement}
use finflow.Ledger.Tables.{ConsumedEvent}
use finflow.Payments.Event.{OutboxEvent}
use finflow.Replay.Audit.{ReplayAudit}
use finflow.Retention.{outbox_rule, consumed_rule, replay_rule, run_rule}
use finflow.Retention.Settings.{RetentionConfig, load_config}

-- A world with other tables.
abbrev pub with_db : {T U : Type 0} → World T → U → World U
with_db w db = record { db = db; schedule = w.schedule; next_id = w.next_id; clock = w.clock }

-- The tables of the rules, and whether a session holds the advisory lock `retentionLockID`.
pub record OperationalDb : Type 0 where
  pub outbox : List OutboxEvent
  pub consumed : List ConsumedEvent
  pub replays : List ReplayAudit
  pub locked : Bool

-- A rule on its table.
abbrev pub on_outbox : {A : Type 0} → Action (List OutboxEvent) A → Action OperationalDb A
on_outbox action w =
    let (r, w') = action (with_db w w.db.outbox) in (r, with_db w' (record w.db { outbox = w'.db }))

abbrev pub on_consumed : {A : Type 0} → Action (List ConsumedEvent) A → Action OperationalDb A
on_consumed action w =
    let (r, w') = action (with_db w w.db.consumed) in
    (r, with_db w' (record w.db { consumed = w'.db }))

abbrev pub on_replays : {A : Type 0} → Action (List ReplayAudit) A → Action OperationalDb A
on_replays action w =
    let (r, w') = action (with_db w w.db.replays) in
    (r, with_db w' (record w.db { replays = w'.db }))

-- `SELECT pg_try_advisory_lock($1)`
abbrev pub try_lock_query : ℕ → OperationalDb → Result (Bool × OperationalDb)
try_lock_query now db = ok (not db.locked, record db { locked = true })

-- `SELECT pg_advisory_unlock($1)`
abbrev pub unlock_query : ℕ → OperationalDb → Result (Bool × OperationalDb)
unlock_query now db = ok (db.locked, record db { locked = false })

-- The deferred unlocking, whose error is dropped.
unfoldable pub unlocking : {A : Type 0} → Action OperationalDb A → Action OperationalDb A
unlocking action w =
    let (r, w') = action w in let (unlocked, w'') = statement (λ e. e) unlock_query w' in (r, w'')

module _ (rounds : ℕ) (times : ℕ → ℕ) where
  -- The loop over `retention.Rules`.
  unfoldable pub run_rules : RetentionConfig → Action OperationalDb (Unit {0})
  run_rules cfg = do
    outbox ←
        on_outbox
          (run_rule rounds (outbox_rule cfg.outbox_retention) (times 0) cfg.batch_size cfg.dry_run)
    consumed ← on_consumed (
        run_rule rounds (consumed_rule cfg.consumed_retention) (times 1) cfg.batch_size cfg.dry_run)
    replays ←
        on_replays
          (run_rule rounds (replay_rule cfg.replay_retention) (times 2) cfg.batch_size cfg.dry_run)
    pure tt

  -- Once the connection is acquired.
  unfoldable pub run_locked : RetentionConfig → Action OperationalDb (Unit {0})
  unfolding run_rules unlocking
  run_locked cfg = do
    locked ← statement (wrap "acquire retention lock") try_lock_query
    if not locked
        then fail (message "another retention run holds the advisory lock")
        else unlocking (run_rules cfg)

  module _ (env : Environment) (getenv : String → String) (connect : String → Result (Unit {0}))
      (acquire : Result (Unit {0})) where
    unfoldable pub run : Action OperationalDb (Unit {0})
    unfolding load_config run_locked
    run = do
      cfg ← lift (load_config env getenv)
      pool ← lift (connect cfg.database_url)
      conn ← lift (map_error (wrap "acquire retention connection") acquire)
      run_locked cfg
