-- ===== src/Tests/Consumer.antt =====
-- The consumer's and the replayer's theorems on the concrete inputs.
use finflow.Base.{
  String, str_eq, if◌then◌else◌, ◌≤◌, ◌+◌, ◌≡◌, ◌⊎◌, refl, arith, none, List, [], ◌∷◌, ◌++◌, length,
  All,
}
use finflow.Base.Int.{pos}
use finflow.Go.Errors.{Error, message, Result, ok, err}
use finflow.Go.Strings.{trim_space}
use finflow.Go.Json.{Document}
use finflow.Postgres.{World, success, failed}
use finflow.Ledger.Tables.{LedgerDb}
use finflow.Ledger.Service.Movement.{SameBooks}
use finflow.Ledger.Service.Once.{BookedOnce}
use finflow.Consumer.Message.{Message, header_value}
use finflow.Consumer.Payload.{decode_payment_created}
use finflow.Consumer.Handle.{handle_message}
use finflow.Consumer.DeadLetter.{DeadLetterRecord, dead_letter_record}
use finflow.Consumer.Retry.{handle_with_retry}
use finflow.Consumer.Retry.Trace.{Run, handle_with_retry_runs}
use finflow.Consumer.Retry.Waits.{IsDoubling, handle_with_retry_waits}
use finflow.Consumer.Retry.Booking.{ledger_service, IsPaymentCreated, retries_book_once}
use finflow.Consumer.Run.{PaymentConsumer, ConsumerState, Fetch, process_message, run}
use finflow.Consumer.Run.Committed.{Settled, process_message_settles, run_commits_in_order}
use finflow.Replay.Audit.{ReplayAudit, ReplayStatus}
use finflow.Replay.Replayer.{ReplayState, replayed_message, replay}
use finflow.Replay.Command.{Connections, ReplayCall, run as run_command}
use finflow.Replay.Selected.{IsSelected, run_selects, run_refused}
use finflow.Replay.Restored.{handle-replayed_message}
use finflow.Tests.Inputs.{ascii, world, empty_ledger, lossy, created_message, policy}

-- The ledger refuses each call, then answers.
abbrev failing : World LedgerDb
failing = world empty_ledger (failed (message "connection refused") ∷ lossy)

abbrev handle : World LedgerDb → Result (Unit {0}) × World LedgerDb
handle = handle_message (ledger_service ascii) created_message

created_message-IsPaymentCreated : IsPaymentCreated ascii created_message
unfolding header_value decode_payment_created
created_message-IsPaymentCreated = record {
  payload = record {
    schema_version = pos 1;
    payment_id = "p1";
    amount_cents = pos 1250;
    currency = "USD";
  };
  has_id = refl;
  created = refl;
  decodes = refl;
}

retries_book_once_example :
    let (r, w') = handle_with_retry handle policy [] failing in
    (SameBooks empty_ledger w'.db
      ⊎ BookedOnce ascii (header_value created_message.headers "event_id") empty_ledger w'.db)
    × (r.error ≡ none
        → BookedOnce ascii (header_value created_message.headers "event_id") empty_ledger w'.db)
unfolding header_value trim_space
retries_book_once_example =
    retries_book_once ascii created_message created_message-IsPaymentCreated policy [] failing "e1"
      (omega arith) refl refl

handle_with_retry_runs_example :
    let (r, w') = handle_with_retry handle policy [] failing in
    Run handle policy 1 [] failing r.attempts r.error w'
handle_with_retry_runs_example = handle_with_retry_runs handle policy [] failing (omega arith)

handle_with_retry_waits_example :
    let (r, _) = handle_with_retry handle policy [] failing in
    IsDoubling 300 100 r.waited × All (λ d. d ≤ 300) r.waited × (length r.waited + 1 ≡ r.attempts)
handle_with_retry_waits_example =
    handle_with_retry_waits handle policy [] failing (omega arith) (omega arith) (omega arith)

abbrev consumer : PaymentConsumer LedgerDb
consumer = record { ledger = ledger_service ascii; dead_letter_topic = "dead"; policy = policy }

abbrev state : ConsumerState LedgerDb
state = record {
  world = failing;
  waits = [];
  kafka = success ∷ failed (message "broker down") ∷ [];
  dead_letters = [];
  committed = [];
}

process_message_settles_example :
    let (r, w) = handle_with_retry handle policy [] failing in
    let (answer, s') = process_message consumer created_message state in
    ((s'.committed ≡ []) ⊎ Settled consumer created_message r w.clock state s')
    × (answer ≡ ok tt → s'.committed ≡ created_message ∷ [])
process_message_settles_example = process_message_settles consumer created_message state

abbrev script : List Fetch
script =
    Fetch.fetched created_message
    ∷ Fetch.fetch_failed (message "timeout") none
    ∷ Fetch.fetched created_message
    ∷ []

run_commits_in_order_example :
    let (stopped, s') = run consumer script state in
    (done : List (Message Document)) × (rest : List (Message Document)) × (created_message
        ∷ created_message ∷ []
      ≡ done ++ rest)
    × (s'.committed ≡ done)
    × (stopped ≡ none → rest ≡ [])
run_commits_in_order_example = run_commits_in_order consumer script state

abbrev running : ReplayAudit
running = record {
  id = "r1";
  source = record {
    event_id = "e1";
    operator = "ops";
    reason = "fixed";
    topic = "payments";
    partition = 0;
    offset = 4;
  };
  status = ReplayStatus.started;
  last_error = none;
  started_at = 3;
  completed_at = none;
}

abbrev letter : DeadLetterRecord
letter = dead_letter_record created_message (message "ledger down") 3 5

abbrev replaying : ReplayState
replaying = record { world = world (record { replays = running ∷ [] }) []; kafka = []; topic = [] }

-- The variables of a replay of that record.
abbrev replay_variables : String → String
replay_variables key =
    if str_eq key "REPLAY_EVENT_ID"
    then " e1"
    else if str_eq key "REPLAY_OPERATOR"
    then "ops"
    else if str_eq key "REPLAY_REASON"
    then "again"
    else if str_eq key "REPLAY_PARTITION"
    then "0"
    else if str_eq key "REPLAY_OFFSET"
    then "4"
    else ""

abbrev connections : Connections
connections = record {
  connect = λ url. ok tt;
  new_partition_reader = λ cfg partition offset. ok tt;
  fetch_message = λ partition offset. ok (record { offset = offset; letter = ok letter });
  new_kafka_writer = λ cfg. ok tt;
}

run_selects_example :
    ((e : Error) × (run_command ascii replay_variables connections replaying ≡ (err e, replaying)))
    ⊎ ((call : ReplayCall) × IsSelected ascii replay_variables connections call
        × (run_command ascii replay_variables connections replaying
            ≡ replay ascii call.settings.payment_events_topic call.letter call.operator call.reason
                replaying))
run_selects_example = run_selects ascii replay_variables connections replaying

run_refused_example :
    let (answer, s') = run_command ascii replay_variables connections replaying in
    ((e : Error) × (answer ≡ err e)) × (s'.topic ≡ []) × (s'.world.db ≡ replaying.world.db)
unfolding trim_space
run_refused_example = run_refused ascii replay_variables connections replaying running refl refl

handle-replayed_message_example :
    handle_message (ledger_service ascii) (replayed_message ascii "payments" letter "r2" 9) failing
    ≡ handle failing
handle-replayed_message_example =
    handle-replayed_message ascii (ledger_service ascii) "payments" created_message
      (message "ledger down") 3 5 9 "r2" failing
