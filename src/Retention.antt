-- ===== src/Retention.antt =====
-- services/payment-service/internal/retention/retention.go: the rules, and `RunRule` over the rows of a
-- rule's table. Which rows a batch takes is left open by the query; here it takes the first ones.
-- A cutoff before the first time is the first time: no row is before either.
pub mod Complete
pub mod Kept
pub mod Settings
pub mod Command
pub mod Allowed
pub mod Locked
pub mod Guarded
use Prim.Native.String.{◌++◌ as str_append}
use finflow.Base.{
  ℕ, zero, suc, ◌+◌, ◌-◌, String, Bool, true, false, not, ◌&&◌, ◌||◌, Option, none, some, List, [],
  ◌∷◌, count_if, ltb, if◌then◌else◌,
}
use finflow.Base.Int.{ℤ, pos_part, is_non_positive}
use finflow.Go.Errors.{Error, message, wrap, Result, ok, err}
use finflow.Postgres.{World, Action, pure, fail, ◌>>=◌, statement}
use finflow.Ledger.Tables.{ConsumedEvent}
use finflow.Payments.Event.{OutboxEvent, OutboxStatus}
use finflow.Replay.Audit.{ReplayAudit, ReplayStatus}

-- A rule, with the WHERE clause of its two queries: a cutoff and a row.
pub record Rule (Row : Type 0) : Type 0 where
  pub name : String
  pub retention : ℤ
  pub is_eligible : ℕ → Row → Bool

-- `Result`
pub record RuleResult : Type 0 where
  pub name : String
  pub eligible : ℕ
  pub deleted : ℕ
  pub dry_run : Bool

abbrev pub is_before : Option ℕ → ℕ → Bool
is_before none cutoff = false
is_before (some t) cutoff = ltb t cutoff

abbrev pub is_published : OutboxStatus → Bool
is_published OutboxStatus.published = true
is_published OutboxStatus.pending = false
is_published OutboxStatus.publishing = false
is_published OutboxStatus.failed = false

abbrev pub is_completed : ReplayStatus → Bool
is_completed ReplayStatus.succeeded = true
is_completed ReplayStatus.failed = true
is_completed ReplayStatus.started = false

-- `Rules`
abbrev pub outbox_rule : ℤ → Rule OutboxEvent
outbox_rule retention = record {
  name = "published_outbox_events";
  retention = retention;
  is_eligible = λ cutoff e. is_published e.status && is_before e.published_at cutoff;
}

abbrev pub consumed_rule : ℤ → Rule ConsumedEvent
consumed_rule retention = record {
  name = "consumed_ledger_events";
  retention = retention;
  is_eligible = λ cutoff e. ltb e.consumed_at cutoff;
}

abbrev pub replay_rule : ℤ → Rule ReplayAudit
replay_rule retention = record {
  name = "completed_dead_letter_replays";
  retention = retention;
  is_eligible = λ cutoff a. is_completed a.status && is_before a.completed_at cutoff;
}

module _ {Row : Type 0} where
  abbrev pub count_failed : Rule Row → Error → Error
  count_failed rule = wrap (str_append "count " rule.name)

  abbrev pub delete_failed : Rule Row → Error → Error
  delete_failed rule = wrap (str_append "delete " (str_append rule.name " batch"))

  -- The rows that a batch leaves, and how many it takes.
  unfoldable pub delete_first : ℕ → (Row → Bool) → List Row → List Row
  delete_first n p [] = []
  delete_first zero p (r ∷ rows) = r ∷ rows
  delete_first (suc n) p (r ∷ rows) =
      if p r then delete_first n p rows else r ∷ delete_first (suc n) p rows

  unfoldable pub deleted_by : ℕ → (Row → Bool) → List Row → ℕ
  deleted_by n p [] = 0
  deleted_by zero p (r ∷ rows) = 0
  deleted_by (suc n) p (r ∷ rows) =
      if p r then 1 + deleted_by n p rows else deleted_by (suc n) p rows

  -- `rule.CountSQL`
  abbrev pub count_query : (Row → Bool) → ℕ → List Row → Result (ℕ × List Row)
  count_query p now rows = ok (count_if p rows, rows)

  -- `rule.DeleteSQL`
  unfoldable pub delete_query : ℕ → (Row → Bool) → ℕ → List Row → Result (ℕ × List Row)
  unfolding delete_first deleted_by
  delete_query batch_size p now rows =
      ok (deleted_by batch_size p rows, delete_first batch_size p rows)

  -- The loop, with the rounds that are left.
  unfoldable pub delete_loop :
      ℕ → Rule Row → (Row → Bool) → ℕ → RuleResult → Action (List Row) RuleResult
  unfolding delete_query
  delete_loop zero rule p batch_size result = fail (message "out of rounds")
  delete_loop (suc rounds) rule p batch_size result =
      statement (delete_failed rule) (delete_query batch_size p) >>= λ n.
      let result' = record result { deleted = result.deleted + n } in
      let again = delete_loop rounds rule p batch_size result' in
      if ltb n batch_size then pure result' else again

  unfoldable pub run_rule : ℕ → Rule Row → ℕ → ℤ → Bool → Action (List Row) RuleResult
  unfolding delete_loop
  run_rule rounds rule now batch_size dry_run =
      let p = rule.is_eligible (now - pos_part rule.retention) in
      if is_non_positive rule.retention
      then fail (message (str_append rule.name " retention must be greater than zero"))
      else if is_non_positive batch_size
      then fail (message "batch size must be at least 1")
      else statement (count_failed rule) (count_query p) >>= λ eligible.
          let result : RuleResult = record {
            name = rule.name;
            eligible = eligible;
            deleted = 0;
            dry_run = dry_run;
          } in
          if dry_run then pure result else delete_loop rounds rule p (pos_part batch_size) result
