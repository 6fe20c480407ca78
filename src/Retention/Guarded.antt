-- ===== src/Retention/Guarded.antt =====
-- What a run of cmd/retention/main.go can have deleted.
use finflow.Base.{
  ℕ, ◌-◌, ◌≡◌, refl, String, Bool, true, false, not, if◌then◌else◌, ◌⊎◌, inl, inr, Bool-cases,
  arith,
}
use finflow.Base.Int.{pos_part}
use finflow.Go.Environment.{Environment}
use finflow.Go.Errors.{message, wrap, Result, ok, Result-cases}
use finflow.Postgres.{World, Action, fail, statement}
use finflow.Postgres.Atomic.{statement_answer, bind_cases}
use finflow.Retention.{outbox_rule, consumed_rule, replay_rule}
use finflow.Retention.Complete.{kept}
use finflow.Retention.Kept.{kept-run_rule, dry-run_rule}
use finflow.Retention.Settings.{RetentionConfig, load_config}
use finflow.Retention.Allowed.{IsConfirmed, IsAllowed, load_config_ok}
use finflow.Retention.Command.{OperationalDb, try_lock_query, unlocking, run_rules, run_locked, run}
use finflow.Retention.Locked.{SameBy, lock-Keeps, run_locked-Keeps}

abbrev pub SameTables : OperationalDb → OperationalDb → Type 0
SameTables = SameBy (λ rows. rows) (λ rows. rows) (λ rows. rows)

-- The rows that the rules of the settings spare are the same.
abbrev pub OnlyEligible : (ℕ → ℕ) → RetentionConfig → OperationalDb → OperationalDb → Type 0
OnlyEligible times cfg =
    SameBy
      (kept
        ((outbox_rule cfg.outbox_retention).is_eligible (times 0 - pos_part cfg.outbox_retention)))
      (kept (
        (consumed_rule cfg.consumed_retention).is_eligible
          (times 1 - pos_part cfg.consumed_retention)))
      (kept
        ((replay_rule cfg.replay_retention).is_eligible (times 2 - pos_part cfg.replay_retention)))

module _ (rounds : ℕ) (times : ℕ → ℕ) where
  run_locked-SameTables :
      (cfg : RetentionConfig) (w : World OperationalDb)
      → cfg.dry_run ≡ true
      → SameTables w.db (run_locked rounds times cfg w).1.db
  run_locked-SameTables cfg w dry =
      run_locked-Keeps (λ rows. rows) (λ rows. rows) (λ rows. rows) rounds times cfg
        (λ w.
          rw dry
            (dry-run_rule rounds (outbox_rule cfg.outbox_retention) (times 0) cfg.batch_size w))
        (λ w.
          rw dry
            (dry-run_rule rounds (consumed_rule cfg.consumed_retention) (times 1) cfg.batch_size w))
        (λ w.
          rw dry
            (dry-run_rule rounds (replay_rule cfg.replay_retention) (times 2) cfg.batch_size w))
        w

  run_locked-OnlyEligible :
      (cfg : RetentionConfig) (w : World OperationalDb)
      → OnlyEligible times cfg w.db (run_locked rounds times cfg w).1.db
  run_locked-OnlyEligible cfg w =
      run_locked-Keeps _ _ _ rounds times cfg
        (kept-run_rule rounds (outbox_rule cfg.outbox_retention) (times 0) cfg.batch_size
          cfg.dry_run)
        (kept-run_rule rounds (consumed_rule cfg.consumed_retention) (times 1) cfg.batch_size
          cfg.dry_run)
        (kept-run_rule rounds (replay_rule cfg.replay_retention) (times 2) cfg.batch_size
          cfg.dry_run)
        w

  -- A run that finds the lock taken.
  run_locked-excluded :
      (cfg : RetentionConfig) (w : World OperationalDb)
      → w.db.locked ≡ true
      → SameTables w.db (run_locked rounds times cfg w).1.db
  unfolding run_locked
  run_locked-excluded cfg w taken =
      let lock = statement (wrap "acquire retention lock") try_lock_query in
      let next : Bool → Action OperationalDb (Unit {0}) = λ locked.
        if not locked
        then fail (message "another retention run holds the advisory lock")
        else unlocking (run_rules rounds times cfg) in
      let same_lock =
        lock-Keeps (λ rows. rows) (λ rows. rows) (λ rows. rows) (wrap "acquire retention lock") w in
      elim (bind_cases lock next w) [
        | inl (e, _, same) ↦ rw same same_lock
        | inr (ours, answered, same) ↦
            let (e, _) =
              statement_answer (wrap "acquire retention lock") (λ (d : OperationalDb). not d.locked)
                (λ (d : OperationalDb). record d { locked = true }) w answered in
            let refused : ours ≡ false = ground arith in rw (same, refused) same_lock
      ]

  module _ (env : Environment) (getenv : String → String) (connect : String → Result (Unit {0}))
      (acquire : Result (Unit {0})) where
    -- What a run has done to the tables.
    abbrev pub IsGuarded : OperationalDb → OperationalDb → Type 0
    IsGuarded db db' =
        SameTables db db'
        ⊎ (IsConfirmed env getenv
            × (db.locked ≡ false)
            × ((cfg : RetentionConfig) × (load_config env getenv ≡ ok cfg)
                × IsAllowed env getenv cfg
                × OnlyEligible times cfg db db'))

    run_locked-IsGuarded :
        (cfg : RetentionConfig) (w : World OperationalDb)
        → load_config env getenv ≡ ok cfg
        → IsGuarded w.db (run_locked rounds times cfg w).1.db
    run_locked-IsGuarded cfg w loaded = elim (Bool-cases cfg.dry_run) [
      | inl dry ↦ inl (run_locked-SameTables cfg w dry)
      | inr wet ↦ elim (Bool-cases w.db.locked) [
        | inl taken ↦ inl (run_locked-excluded cfg w taken)
        | inr free ↦
            let allowed = load_config_ok env getenv loaded in
            inr (allowed.0 wet, free, (cfg, loaded, allowed, run_locked-OnlyEligible cfg w))
      ]
    ]

    -- A retention run, however the connections and the database fail, leaves the outbox, the
    -- consumed events and the replay audit as they are, unless RETENTION_DRY_RUN reads as false,
    -- RETENTION_CONFIRM is DELETE_OPERATIONAL_DATA and no other run holds the lock; then it deletes
    -- only rows that are eligible by settings with positive periods and a batch size between 1 and
    -- 10000.
    pub run-IsGuarded :
        (w : World OperationalDb)
        → IsGuarded w.db (run rounds times env getenv connect acquire w).1.db
    unfolding run
    run-IsGuarded w = elim (Result-cases (load_config env getenv)) [
      | inr (e, failed) ↦ rw failed (inl (refl, refl, refl))
      | inl (cfg, loaded) ↦ elim (Result-cases (connect cfg.database_url)) [
        | inr (e, failed) ↦ rw (loaded, failed) (inl (refl, refl, refl))
        | inl (pool, connected) ↦ elim (Result-cases acquire) [
          | inr (e, failed) ↦ rw (loaded, connected, failed) (inl (refl, refl, refl))
          | inl (conn, acquired) ↦
              let same : run rounds times env getenv connect acquire w
                  ≡ run_locked rounds times cfg w =
                rw (loaded, connected, acquired) refl in
              rw same (run_locked-IsGuarded cfg w loaded)
        ]
      ]
    ]
