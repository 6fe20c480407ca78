-- ===== src/Retention/Locked.antt =====
-- A run of cmd/retention/main.go keeps what its rules keep: the lock and the order of the rules.
use finflow.Base.{
  ℕ, ◌≡◌, refl, ap, ◌∙◌, Bool, not, List, if◌then◌else◌, inl, inr, Bool-cases, arith,
}
use finflow.Go.Errors.{Error, message, wrap, Result, ok}
use finflow.Postgres.{World, Action, pure, fail, statement, ◌>>=◌}
use finflow.Postgres.Atomic.{statement_db, bind_cases}
use finflow.Ledger.Tables.{ConsumedEvent}
use finflow.Payments.Event.{OutboxEvent}
use finflow.Replay.Audit.{ReplayAudit}
use finflow.Retention.{Rule, RuleResult, outbox_rule, consumed_rule, replay_rule, run_rule}
use finflow.Retention.Settings.{RetentionConfig}
use finflow.Retention.Command.{
  OperationalDb, on_outbox, on_consumed, on_replays, try_lock_query, unlock_query, unlocking,
  run_rules, run_locked,
}

-- What three functions of the tables see is unchanged.
abbrev pub SameBy :
    (List OutboxEvent → List OutboxEvent)
    → (List ConsumedEvent → List ConsumedEvent)
    → (List ReplayAudit → List ReplayAudit)
    → OperationalDb
    → OperationalDb
    → Type 0
SameBy f g h db db' =
    (f db'.outbox ≡ f db.outbox) × (g db'.consumed ≡ g db.consumed) × (h db'.replays ≡ h db.replays)

module _ (f : List OutboxEvent → List OutboxEvent) (g : List ConsumedEvent → List ConsumedEvent)
    (h : List ReplayAudit → List ReplayAudit) where
  abbrev pub Keeps : {A : Type 0} → Action OperationalDb A → Type 0
  Keeps action = (w : World OperationalDb) → SameBy f g h w.db (action w).1.db

  same_trans : (a b c : OperationalDb) → SameBy f g h a b → SameBy f g h b c → SameBy f g h a c
  same_trans a b c p q = (q.0 ∙ p.0, q.1 ∙ p.1, q.2 ∙ p.2)

  same_of_path : (a b : OperationalDb) → b ≡ a → SameBy f g h a b
  same_of_path a b e = (
    ap (λ (d : OperationalDb). f d.outbox) e,
    ap (λ (d : OperationalDb). g d.consumed) e,
    ap (λ (d : OperationalDb). h d.replays) e,
  )

  bind-Keeps :
      {A B : Type 0} (m : Action OperationalDb A) (next : A → Action OperationalDb B)
      → Keeps m
      → ((a : A) → Keeps (next a))
      → Keeps (m >>= next)
  bind-Keeps m next first rest w = elim (bind_cases m next w) [
    | inl (e, _, same) ↦ rw same (first w)
    | inr (a, _, same) ↦
        rw same (same_trans w.db (m w).1.db (next a (m w).1).1.db (first w) (rest a (m w).1))
  ]

  -- A query that leaves the three tables alone.
  statement-Keeps :
      {A : Type 0} (e : Error → Error) (query : ℕ → OperationalDb → Result (A × OperationalDb))
      → ((now : ℕ) (d d' : OperationalDb) (a : A) → query now d ≡ ok (a, d') → SameBy f g h d d')
      → Keeps (statement e query)
  statement-Keeps e query same_tables w = elim (statement_db e query w) [
    | inl same ↦ same_of_path w.db (statement e query w).1.db same
    | inr (a, ran) ↦ same_tables w.clock w.db (statement e query w).1.db a ran
  ]

  pub lock-Keeps : (e : Error → Error) → Keeps (statement e try_lock_query)
  lock-Keeps e =
      statement-Keeps e try_lock_query
        (λ now d d' a ran. (ground arith, ground arith, ground arith))

  unlocking-Keeps :
      {A : Type 0} (action : Action OperationalDb A) → Keeps action → Keeps (unlocking action)
  unfolding unlocking
  unlocking-Keeps action keeps w =
      let w' = (action w).1 in
      let unlock = statement (λ e. e) unlock_query in
      same_trans w.db w'.db (unlock w').1.db (keeps w) (
        statement-Keeps (λ e. e) unlock_query
          (λ now d d' a ran. (ground arith, ground arith, ground arith)) w')

  module _ (rounds : ℕ) (times : ℕ → ℕ) (cfg : RetentionConfig) where
    -- Each rule keeps what its function sees.
    abbrev RuleKeeps : {Row : Type 0} → (List Row → List Row) → Rule Row → ℕ → Type 0
    RuleKeeps {Row} k rule now =
        (w : World (List Row))
        → k (run_rule rounds rule now cfg.batch_size cfg.dry_run w).1.db ≡ k w.db

    pub run_locked-Keeps :
        RuleKeeps f (outbox_rule cfg.outbox_retention) (times 0)
        → RuleKeeps g (consumed_rule cfg.consumed_retention) (times 1)
        → RuleKeeps h (replay_rule cfg.replay_retention) (times 2)
        → Keeps (run_locked rounds times cfg)
    unfolding run_locked run_rules
    run_locked-Keeps first second third =
        let outbox =
          run_rule rounds (outbox_rule cfg.outbox_retention) (times 0) cfg.batch_size cfg.dry_run in
        let consumed =
          run_rule rounds (consumed_rule cfg.consumed_retention) (times 1) cfg.batch_size
            cfg.dry_run in
        let replays =
          run_rule rounds (replay_rule cfg.replay_retention) (times 2) cfg.batch_size cfg.dry_run in
        let last : RuleResult → Action OperationalDb (Unit {0}) =
          λ r. pure {T = OperationalDb} tt in
        let middle : RuleResult → Action OperationalDb (Unit {0}) =
          λ r. on_replays replays >>= last in
        let rest : RuleResult → Action OperationalDb (Unit {0}) =
          λ r. on_consumed consumed >>= middle in
        let rules : Keeps (run_rules rounds times cfg) =
          bind-Keeps (on_outbox outbox) rest (λ w. (first _, refl, refl))
            (λ r.
              bind-Keeps (on_consumed consumed) middle (λ w. (refl, second _, refl))
                (λ r.
                  bind-Keeps (on_replays replays) last (λ w. (refl, refl, third _))
                    (λ r w. (refl, refl, refl)))) in
        let next : Bool → Action OperationalDb (Unit {0}) = λ locked.
          if not locked
          then fail (message "another retention run holds the advisory lock")
          else unlocking (run_rules rounds times cfg) in
        bind-Keeps (statement (wrap "acquire retention lock") try_lock_query) next
          (lock-Keeps (wrap "acquire retention lock"))
          (λ locked. elim (Bool-cases locked) [
            | inl ours ↦ rw ours (unlocking-Keeps (run_rules rounds times cfg) rules)
            | inr other ↦ rw other (λ w. (refl, refl, refl))
          ])
