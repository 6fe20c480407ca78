-- ===== src/Replay/Audit.antt =====
-- repository/replay_repository.go: the table dead_letter_replays (migrations/000007), `StartReplay` and
-- `FinishReplay`.
use finflow.Base.{
  ℕ, ◌+◌, String, Bool, true, false, Option, none, some, List, [], ◌∷◌, ◌++◌, any, find, ◌==◌,
  str_eq, if◌then◌else◌,
}
use finflow.Go.Environment.{Environment}
use finflow.Go.Errors.{Sentinel, sentinel, message, wrap, Result, ok, err}
use finflow.Go.Strings.{is_empty}
use finflow.Postgres.{World, Action, lift, statement, new_uuid}
use finflow.Postgres

-- CHECK (status IN ('started', 'succeeded', 'failed'))
pub data ReplayStatus : Type 0 where
  started succeeded failed : ReplayStatus

pub record ReplaySource : Type 0 where
  pub event_id : String
  pub operator : String
  pub reason : String
  pub topic : String
  pub partition : ℕ
  pub offset : ℕ

pub record ReplayAudit : Type 0 where
  pub id : String
  pub source : ReplaySource
  pub status : ReplayStatus
  pub last_error : Option String
  pub started_at : ℕ
  pub completed_at : Option ℕ

pub record ReplayDb : Type 0 where
  pub replays : List ReplayAudit

abbrev pub is_failed : ReplayStatus → Bool
is_failed failed = true
is_failed succeeded = false
is_failed started = false

abbrev pub started_audit : String → ReplaySource → ℕ → ReplayAudit
started_audit id source now = record {
  id = id;
  source = source;
  status = started;
  last_error = none;
  started_at = now;
  completed_at = none;
}

-- The row of an event.
abbrev pub audit_of : String → List ReplayAudit → Option ReplayAudit
audit_of event_id rows = find (λ r. str_eq r.source.event_id event_id) rows

-- DO UPDATE SET ... on the row of the event, which keeps its id.
unfoldable pub restart_row : ReplaySource → ℕ → List ReplayAudit → List ReplayAudit
restart_row source now [] = []
restart_row source now (r ∷ rows) =
    if str_eq r.source.event_id source.event_id
    then started_audit r.id source now ∷ rows
    else r ∷ restart_row source now rows

-- INSERT ... ON CONFLICT (event_id) DO UPDATE ... WHERE status = 'failed' RETURNING id: no row comes
-- back where the event has a row that did not fail.
unfoldable pub start_replay_query :
    Environment → String → ReplaySource → ℕ → ReplayDb → Result (Option String × ReplayDb)
unfolding restart_row
start_replay_query env id_text source now db = elim (env.read_uuid id_text) [
  | none ↦ err (message "invalid input syntax for type uuid")
  | some id ↦ elim (audit_of source.event_id db.replays) [
    | some r ↦
        if is_failed r.status
        then ok (some r.id, record { replays = restart_row source now db.replays })
        else ok (none, db)
    | none ↦
        if any (λ r. str_eq r.id id) db.replays
        then err (message "duplicate key")
        else ok (some id, record { replays = db.replays ++ started_audit id source now ∷ [] })
  ]
]

-- UPDATE dead_letter_replays SET status, last_error, completed_at WHERE id = $1
unfoldable pub finish_rows :
    String → ReplayStatus → Option String → ℕ → List ReplayAudit → List ReplayAudit
finish_rows id status failure now [] = []
finish_rows id status failure now (r ∷ rows) =
    (if str_eq r.id id
      then record r { status = status; last_error = failure; completed_at = some now }
      else r)
    ∷ finish_rows id status failure now rows

-- `RowsAffected`
unfoldable pub count_rows : String → List ReplayAudit → ℕ
count_rows id [] = 0
count_rows id (r ∷ rows) = (if str_eq r.id id then 1 else 0) + count_rows id rows

unfoldable pub finish_replay_query :
    Environment → String → ReplayStatus → String → ℕ → ReplayDb → Result (ℕ × ReplayDb)
unfolding finish_rows count_rows
finish_replay_query env id_text status failure now db = elim (env.read_uuid id_text) [
  | none ↦ err (message "invalid input syntax for type uuid")
  | some id ↦ ok (
    count_rows id db.replays,
    record {
      replays =
          finish_rows id status (if is_empty failure then none else some failure) now db.replays;
    },
  )
]

abbrev pub claimed : Option String → Result String
claimed (some id) = ok id
claimed none = err (sentinel Sentinel.replay_already_claimed)

abbrev finished : ℕ → Result (Unit {0})
finished n =
    if n == 1 then ok tt else err (message "finish dead-letter replay audit: audit not found")

module _ (env : Environment) where
  unfoldable pub start_replay : ReplaySource → Action ReplayDb String
  unfolding start_replay_query new_uuid
  start_replay source w =
      let (id, w') = new_uuid env w in
      (Postgres.◌>>=◌
          (statement (wrap "start dead-letter replay audit") (start_replay_query env id source))
          (λ row. lift (claimed row)))
        w'

  unfoldable pub finish_replay : String → Bool → String → Action ReplayDb (Unit {0})
  unfolding finish_replay_query
  finish_replay id success failure =
      Postgres.◌>>=◌
        (statement (wrap "finish dead-letter replay audit")
          (finish_replay_query env id (if success then succeeded else failed) failure))
        (λ n. lift (finished n))
