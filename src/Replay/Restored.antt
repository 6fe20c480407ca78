-- ===== src/Replay/Restored.antt =====
-- A dead letter keeps what the consumer reads: its replay is handled as the message that failed.
use finflow.Base.{ℕ, ◌≡◌, refl, String, false, List, [], ◌∷◌, ◌++◌, map, arith, str_eq}
use finflow.Go.Environment.{Environment}
use finflow.Go.Errors.{Error}
use finflow.Go.Json.{Document}
use finflow.Postgres.{World}
use finflow.Consumer.Message.{Header, Message, header_value}
use finflow.Consumer.Handle.{Ledger, handle_message}
use finflow.Consumer.DeadLetter.{to_dead_letter_header, dead_letter_record}
use finflow.Replay.Replayer.{from_dead_letter_header, replayed_message}

-- Two headers that follow hide nothing of a key that is neither's.
header_value-append :
    (headers : List Header) (key k₁ v₁ k₂ v₂ : String)
    → str_eq k₁ key ≡ false
    → str_eq k₂ key ≡ false
    → header_value
        (map from_dead_letter_header (map to_dead_letter_header headers)
          ++ (record { key = k₁; value = v₁ } ∷ record { key = k₂; value = v₂ } ∷ []))
        key
      ≡ header_value headers key
unfolding header_value to_dead_letter_header
header_value-append [] key k₁ v₁ k₂ v₂ h k = rw (h, k)
header_value-append (x ∷ headers) key k₁ v₁ k₂ v₂ h k =
    ground (arith, header_value-append headers key k₁ v₁ k₂ v₂ h k)

module _ (env : Environment) {T : Type 0} (ledger : Ledger T) where
  handle_message_reads :
      (m m' : Message Document) (w : World T)
      → header_value m'.headers "event_id" ≡ header_value m.headers "event_id"
      → header_value m'.headers "event_type" ≡ header_value m.headers "event_type"
      → m'.value ≡ m.value
      → handle_message ledger m' w ≡ handle_message ledger m w
  unfolding handle_message
  handle_message_reads m m' w id_eq type_eq value_eq = rw (id_eq, type_eq, value_eq)

  -- The consumer does with a message that is replayed from its dead letter exactly what it does
  -- with the original one, failures included.
  pub handle-replayed_message :
      (topic : String) (m : Message Document) (cause : Error) (attempts failed_at now : ℕ)
      (audit_id : String) (w : World T)
      → handle_message ledger
          (replayed_message env topic (dead_letter_record m cause attempts failed_at) audit_id now)
          w
        ≡ handle_message ledger m w
  unfolding replayed_message dead_letter_record
  handle-replayed_message topic m cause attempts failed_at now audit_id w =
      let replayed =
        replayed_message env topic (dead_letter_record m cause attempts failed_at) audit_id now in
      let reads = λ (key : String).
        header_value-append m.headers key "replayed_at" (env.format_time now) "replay_audit_id"
          audit_id in
      handle_message_reads m replayed w (reads "event_id" refl refl) (reads "event_type" refl refl)
        refl
