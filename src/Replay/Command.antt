-- ===== src/Replay/Command.antt =====
-- services/ledger-service/cmd/replay-dead-letter/main.go: `run`. The environment variables, the
-- connections and what the reader of Kafka returns are parameters. The errors on a mismatch are
-- without the values that do not match.
use Prim.Native.String.{◌++◌ as str_append}
use finflow.Base.{String, not, ◌||◌, str_eq, if◌then◌else◌}
use finflow.Base.Int.{ℤ, pos}
use finflow.Go.Environment.{Environment}
use finflow.Go.Errors.{message, wrap, Result, ok, err, fail_if, map_error, ◌>>=◌}
use finflow.Go.Strings.{is_empty, trim_space}
use finflow.Go.Numbers.{parse_int64, less, same}
use finflow.Consumer.DeadLetter.{DeadLetterRecord}
use finflow.Config.Ledger.{LedgerConfig}
use finflow.Config.Load.{load_ledger}
use finflow.Replay.Replayer.{ReplayState, replay}

-- A fetched message: its offset, and what `json.Unmarshal` makes of its value.
pub record Fetched : Type 0 where
  pub offset : ℤ
  pub letter : Result DeadLetterRecord

-- The connections; the reader is opened at a partition and an offset.
pub record Connections : Type 0 where
  pub connect : String → Result (Unit {0})
  pub new_partition_reader : LedgerConfig → ℤ → ℤ → Result (Unit {0})
  pub fetch_message : ℤ → ℤ → Result Fetched
  pub new_kafka_writer : LedgerConfig → Result (Unit {0})

-- What `Replay` is called with.
pub record ReplayCall : Type 0 where
  pub settings : LedgerConfig
  pub letter : DeadLetterRecord
  pub operator : String
  pub reason : String

abbrev pub not_negative : String → Result ℤ → Result ℤ
not_negative key (err e) = err (message (str_append key " must be a non-negative integer"))
not_negative key (ok n) =
    if less n (pos 0)
    then err (message (str_append key " must be a non-negative integer"))
    else ok n

module _ (env : Environment) (getenv : String → String) where
  abbrev pub trimmed_env : String → String
  trimmed_env key = trim_space env (getenv key)

  -- `requiredInt64`, and `requiredInt`, as an int has 64 bits.
  unfoldable pub required_int64 : String → Result ℤ
  required_int64 key =
      let value = trimmed_env key in
      if is_empty value
      then err (message (str_append key " is required"))
      else not_negative key (parse_int64 value)

module _ (env : Environment) (getenv : String → String) (connections : Connections) where
  -- The record that the message carries, once it is the one asked for.
  unfoldable pub checked_letter : ℤ → Fetched → Result DeadLetterRecord
  checked_letter offset fetched = do
    matching ← fail_if (not (same fetched.offset offset)) (message "dead-letter offset mismatch")
    letter ← map_error (wrap "decode dead-letter record") fetched.letter
    asked ←
        fail_if (not (str_eq letter.event_id (trimmed_env env getenv "REPLAY_EVENT_ID")))
          (message "dead-letter event mismatch")
    ok letter

  unfoldable pub fetch_letter : LedgerConfig → ℤ → ℤ → Result DeadLetterRecord
  unfolding checked_letter
  fetch_letter cfg partition offset = do
    pool ← map_error (wrap "connect database") (connections.connect cfg.database_url)
    reader ←
        map_error (wrap "configure Kafka replay reader")
          (connections.new_partition_reader cfg partition offset)
    fetched ←
        map_error (wrap "fetch dead-letter record") (connections.fetch_message partition offset)
    checked_letter offset fetched

  -- All that `run` does before it calls `Replay`.
  unfoldable pub prepare : Result ReplayCall
  unfolding required_int64 fetch_letter
  prepare = do
    cfg ← map_error (wrap "load configuration") (load_ledger env getenv)
    partition ← required_int64 env getenv "REPLAY_PARTITION"
    offset ← required_int64 env getenv "REPLAY_OFFSET"
    let operator = trimmed_env env getenv "REPLAY_OPERATOR"
    let reason = trimmed_env env getenv "REPLAY_REASON"
    given ←
        fail_if
          (is_empty (trimmed_env env getenv "REPLAY_EVENT_ID")
            || is_empty operator
            || is_empty reason)
          (message "REPLAY_EVENT_ID, REPLAY_OPERATOR, and REPLAY_REASON are required")
    letter ← fetch_letter cfg partition offset
    writer ← map_error (wrap "configure Kafka replay writer") (connections.new_kafka_writer cfg)
    ok (record { settings = cfg; letter = letter; operator = operator; reason = reason })

  abbrev pub replay_prepared : Result ReplayCall → ReplayState → Result (Unit {0}) × ReplayState
  replay_prepared (err e) s = (err e, s)
  replay_prepared (ok call) s =
      replay env call.settings.payment_events_topic call.letter call.operator call.reason s

  unfoldable pub run : ReplayState → Result (Unit {0}) × ReplayState
  unfolding prepare
  run s = replay_prepared prepare s
