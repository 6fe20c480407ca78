-- ===== src/Consumer/DeadLetter.antt =====
-- consumer/dead_letter.go: the record of a failed event, and its publication. The bytes of the record
-- are its JSON; a document's bytes are kept as they are.
use Prim.Native.String.{len, slice}
use finflow.Base.{ℕ, String, List, [], ◌∷◌, ltb, if◌then◌else◌, map}
use finflow.Go.Errors.{Error, error_text}
use finflow.Go.Json.{Document}
use finflow.Consumer.Message.{Header, Message, header_value}

abbrev pub dead_letter_schema_version : ℕ
dead_letter_schema_version = 1

pub record DeadLetterHeader : Type 0 where
  pub key : String
  pub value : String

pub record DeadLetterRecord : Type 0 where
  pub schema_version : ℕ
  pub event_id : String
  pub event_type : String
  pub source_topic : String
  pub source_partition : ℕ
  pub source_offset : ℕ
  pub key : String
  pub value : Document
  pub headers : List DeadLetterHeader
  pub failure : String
  pub attempts : ℕ
  pub failed_at : ℕ

-- `value[:maxLength]`; a character that the limit cuts is dropped whole.
unfoldable pub bounded_failure : Error → String
unfolding error_text
bounded_failure e =
    let value = error_text e in if ltb 2048 (len value) then slice value 0 2048 else value

unfoldable pub to_dead_letter_header : Header → DeadLetterHeader
to_dead_letter_header h = record { key = h.key; value = h.value }

unfoldable pub dead_letter_record : Message Document → Error → ℕ → ℕ → DeadLetterRecord
unfolding to_dead_letter_header bounded_failure
dead_letter_record m cause attempts now = record {
  schema_version = dead_letter_schema_version;
  event_id = header_value m.headers "event_id";
  event_type = header_value m.headers "event_type";
  source_topic = m.topic;
  source_partition = m.partition;
  source_offset = m.offset;
  key = m.key;
  value = m.value;
  headers = map to_dead_letter_header m.headers;
  failure = bounded_failure cause;
  attempts = attempts;
  failed_at = now;
}

-- The message that `Publish` writes; the broker sets its partition and offset.
unfoldable pub dead_letter_message :
    String → Message Document → Error → ℕ → ℕ → Message DeadLetterRecord
unfolding dead_letter_record
dead_letter_message topic m cause attempts now =
    let letter = dead_letter_record m cause attempts now in
    record {
      topic = topic;
      partition = 0;
      offset = 0;
      key = m.key;
      value = letter;
      headers =
          record { key = "event_id"; value = letter.event_id }
          ∷ record { key = "event_type"; value = letter.event_type }
          ∷ record { key = "source_topic"; value = letter.source_topic }
          ∷ [];
    }
