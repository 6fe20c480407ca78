-- ===== src/Replay/Replayer.antt =====
-- replay/replayer.go: the guards, the claim in the audit table, and the republication.
use finflow.Base.{
  ℕ, String, true, false, not, ◌||◌, List, [], ◌∷◌, ◌++◌, map, ◌==◌, str_eq, if◌then◌else◌,
}
use finflow.Go.Environment.{Environment}
use finflow.Go.Errors.{message, wrap, error_text, map_error, Result, ok, err}
use finflow.Go.Json.{Document}
use finflow.Go.Strings.{is_empty}
use finflow.Postgres.{
  World, Outcome, success, failed, unacknowledged, first_outcome, other_outcomes,
}
use finflow.Consumer.Message.{Header, Message}
use finflow.Consumer.DeadLetter.{DeadLetterHeader, DeadLetterRecord, dead_letter_schema_version}
use finflow.Replay.Audit.{ReplaySource, ReplayDb, start_replay, finish_replay}

-- The audit store's world, what Kafka answers to a write, and the messages of the source topic.
pub record ReplayState : Type 0 where
  pub world : World ReplayDb
  pub kafka : List Outcome
  pub topic : List (Message Document)

abbrev pub from_dead_letter_header : DeadLetterHeader → Header
from_dead_letter_header h = record { key = h.key; value = h.value }

module _ (env : Environment) (source_topic : String) where
  -- The original message, with the time and the audit's id in two further headers.
  unfoldable pub replayed_message : DeadLetterRecord → String → ℕ → Message Document
  replayed_message letter audit_id now = record {
    topic = source_topic;
    partition = 0;
    offset = 0;
    key = letter.key;
    value = letter.value;
    headers =
        map from_dead_letter_header letter.headers
        ++ (record { key = "replayed_at"; value = env.format_time now }
            ∷ record { key = "replay_audit_id"; value = audit_id }
            ∷ []);
  }

  abbrev pub replay_source : DeadLetterRecord → String → String → ReplaySource
  replay_source letter operator reason = record {
    event_id = letter.event_id;
    operator = operator;
    reason = reason;
    topic = letter.source_topic;
    partition = letter.source_partition;
    offset = letter.source_offset;
  }

  -- After the write: the audit is closed; a failure to record a failed write is dropped.
  abbrev pub close_audit :
      String → Result (Unit {0}) → ReplayState → Result (Unit {0}) × ReplayState
  close_audit audit_id (ok done) s =
      let (r, w) = finish_replay env audit_id true "" s.world in
      (map_error (wrap "record successful dead-letter replay") r, record s { world = w })
  close_audit audit_id (err e) s =
      let (r, w) = finish_replay env audit_id false (error_text e) s.world in
      (err (wrap "republish dead-letter event" e), record s { world = w })

  abbrev pub sent : Outcome → Message Document → ReplayState → Result (Unit {0}) × ReplayState
  sent success m s = (ok tt, record s { topic = s.topic ++ m ∷ [] })
  sent (failed e) m s = (err e, s)
  sent (unacknowledged e) m s = (err e, record s { topic = s.topic ++ m ∷ [] })

  -- `WriteMessages`
  unfoldable pub write_replay : Message Document → ReplayState → Result (Unit {0}) × ReplayState
  write_replay m s = sent (first_outcome s.kafka) m (record s { kafka = other_outcomes s.kafka })

  abbrev pub republish :
      DeadLetterRecord → Result String → ReplayState → Result (Unit {0}) × ReplayState
  republish letter (err e) s = (err e, s)
  republish letter (ok audit_id) s =
      let (r, s') = write_replay (replayed_message letter audit_id s.world.clock) s in
      close_audit audit_id r s'

  -- The guards of `Replay`.
  unfoldable pub check_letter : DeadLetterRecord → String → String → Result (Unit {0})
  check_letter letter operator reason =
      if not (letter.schema_version == dead_letter_schema_version)
      then err (message "unsupported dead-letter schema version")
      else if is_empty letter.event_id
      then err (message "dead-letter record has no event_id")
      else if not (str_eq letter.source_topic source_topic)
      then err (message "dead-letter source topic is not allowed")
      else if is_empty operator || is_empty reason
      then err (message "replay operator and reason are required")
      else ok tt

  abbrev pub claim_and_republish :
      DeadLetterRecord
      → String
      → String
      → Result (Unit {0})
      → ReplayState
      → Result (Unit {0}) × ReplayState
  claim_and_republish letter operator reason (err e) s = (err e, s)
  claim_and_republish letter operator reason (ok checked) s =
      let (claim, w) = start_replay env (replay_source letter operator reason) s.world in
      republish letter claim (record s { world = w })

  unfoldable pub replay :
      DeadLetterRecord → String → String → ReplayState → Result (Unit {0}) × ReplayState
  unfolding check_letter write_replay replayed_message
  replay letter operator reason s =
      claim_and_republish letter operator reason (check_letter letter operator reason) s
