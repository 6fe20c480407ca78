-- ===== src/Replay/Selected.antt =====
-- Which record a run of cmd/replay-dead-letter/main.go hands to `Replay`.
use finflow.Base.{
  ◌≡◌, refl, String, true, false, not, ◌||◌, ◌⊎◌, inl, inr, some, str_eq, eq_iff, arith,
}
use finflow.Base.Int.{ℤ}
use finflow.Go.Environment.{Environment}
use finflow.Go.Errors.{Error, wrap, ok, err, Result-cases}
use finflow.Go.Results.{
  Yields, Yields-bind, Yields-ok, Passed, Yields-self, fail_if-Yields, map_error-Yields,
}
use finflow.Go.Strings.{is_empty}
use finflow.Go.Numbers.{same}
use finflow.Consumer.DeadLetter.{DeadLetterRecord}
use finflow.Config.Ledger.{LedgerConfig}
use finflow.Config.Load.{load_ledger}
use finflow.Replay.Audit.{ReplayAudit, audit_of, is_failed}
use finflow.Replay.Replayer.{ReplayState, replay}
use finflow.Replay.Claims.{replay_refused}
use finflow.Replay.Command.{
  Fetched, Connections, ReplayCall, trimmed_env, required_int64, checked_letter, fetch_letter,
  prepare, run,
}

module _ (env : Environment) (getenv : String → String) (connections : Connections) where
  -- The record at the offset, which is the one asked for.
  abbrev pub IsLetter : ℤ → ℤ → DeadLetterRecord → Type 0
  IsLetter partition offset letter =
      (fetched : Fetched) × (connections.fetch_message partition offset ≡ ok fetched)
      × (same fetched.offset offset ≡ true)
      × (fetched.letter ≡ ok letter)
      × (letter.event_id ≡ trimmed_env env getenv "REPLAY_EVENT_ID")

  abbrev pub IsSelected : ReplayCall → Type 0
  IsSelected call =
      (load_ledger env getenv ≡ ok call.settings)
      × ((partition : ℤ) × (offset : ℤ) × (required_int64 env getenv "REPLAY_PARTITION"
            ≡ ok partition)
          × (required_int64 env getenv "REPLAY_OFFSET" ≡ ok offset)
          × IsLetter partition offset call.letter)
      × (is_empty (trimmed_env env getenv "REPLAY_EVENT_ID") ≡ false)
      × (call.operator ≡ trimmed_env env getenv "REPLAY_OPERATOR")
      × (call.reason ≡ trimmed_env env getenv "REPLAY_REASON")

  checked_letter-Yields :
      (partition offset : ℤ) (fetched : Fetched)
      → connections.fetch_message partition offset ≡ ok fetched
      → Yields (IsLetter partition offset) (checked_letter env getenv connections offset fetched)
  unfolding checked_letter
  checked_letter-Yields partition offset fetched got =
      Yields-bind (Passed (not (same fetched.offset offset))) (IsLetter partition offset) _ _
        (fail_if-Yields (not (same fetched.offset offset)) _)
        (λ u matching.
          Yields-bind (λ letter. fetched.letter ≡ ok letter) (IsLetter partition offset) _ _
            (map_error-Yields (wrap "decode dead-letter record") fetched.letter)
            (λ letter decoded.
              let differs =
                not (str_eq letter.event_id (trimmed_env env getenv "REPLAY_EVENT_ID")) in
              Yields-bind (Passed differs) (IsLetter partition offset) _ _
                (fail_if-Yields differs _)
                (λ v asked.
                  let selected : IsLetter partition offset letter = (
                    fetched,
                    got,
                    ground arith,
                    decoded,
                    (eq_iff letter.event_id (trimmed_env env getenv "REPLAY_EVENT_ID")).0
                        (ground arith),
                  ) in
                  selected)))

  fetch_letter-Yields :
      (cfg : LedgerConfig) (partition offset : ℤ)
      → Yields
          (IsLetter partition offset)
          (fetch_letter env getenv connections cfg partition offset)
  unfolding fetch_letter
  fetch_letter-Yields cfg partition offset =
      Yields-bind (λ (u : Unit {0}). connections.connect cfg.database_url ≡ ok u)
        (IsLetter partition offset) _ _
        (map_error-Yields (wrap "connect database") (connections.connect cfg.database_url))
        (λ pool connected.
          Yields-bind
            (λ (u : Unit {0}). connections.new_partition_reader cfg partition offset ≡ ok u)
            (IsLetter partition offset) _ _
            (map_error-Yields (wrap "configure Kafka replay reader")
              (connections.new_partition_reader cfg partition offset))
            (λ reader opened.
              Yields-bind (λ fetched. connections.fetch_message partition offset ≡ ok fetched)
                (IsLetter partition offset) _ _
                (map_error-Yields (wrap "fetch dead-letter record")
                  (connections.fetch_message partition offset))
                (λ fetched got. checked_letter-Yields partition offset fetched got)))

  prepare-Yields : Yields IsSelected (prepare env getenv connections)
  unfolding prepare
  prepare-Yields =
      let operator = trimmed_env env getenv "REPLAY_OPERATOR" in
      let reason = trimmed_env env getenv "REPLAY_REASON" in
      let missing =
        is_empty (trimmed_env env getenv "REPLAY_EVENT_ID")
        || is_empty operator
        || is_empty reason in
      Yields-bind (λ cfg. load_ledger env getenv ≡ ok cfg) IsSelected _ _
        (map_error-Yields (wrap "load configuration") (load_ledger env getenv))
        (λ cfg loaded.
          Yields-bind (λ n. required_int64 env getenv "REPLAY_PARTITION" ≡ ok n) IsSelected _ _
            (Yields-self (required_int64 env getenv "REPLAY_PARTITION"))
            (λ partition read.
              Yields-bind (λ n. required_int64 env getenv "REPLAY_OFFSET" ≡ ok n) IsSelected _ _
                (Yields-self (required_int64 env getenv "REPLAY_OFFSET"))
                (λ offset read'.
                  Yields-bind (Passed missing) IsSelected _ _ (fail_if-Yields missing _) (λ u given.
                    Yields-bind (IsLetter partition offset) IsSelected _ _
                      (fetch_letter-Yields cfg partition offset)
                      (λ letter fetched.
                        Yields-bind (λ (v : Unit {0}). connections.new_kafka_writer cfg ≡ ok v)
                          IsSelected _ _
                          (map_error-Yields (wrap "configure Kafka replay writer")
                            (connections.new_kafka_writer cfg))
                          (λ writer opened.
                            let selected : IsSelected (record {
                              settings = cfg;
                              letter = letter;
                              operator = operator;
                              reason = reason;
                            }) =
                              (
                                loaded,
                                (partition, offset, read, read', fetched),
                                ground arith,
                                refl,
                                refl,
                              ) in
                            selected))))))

  -- A run of the replay command that does not end before Replay with everything unchanged calls it
  -- once, with the settings that Load returned and the record at the offset of REPLAY_PARTITION
  -- that REPLAY_OFFSET names, whose event is the one of REPLAY_EVENT_ID, which is not empty, and
  -- with the operator and the reason of the variables.
  pub run_selects :
      (s : ReplayState)
      → ((e : Error) × (run env getenv connections s ≡ (err e, s)))
        ⊎ ((call : ReplayCall) × IsSelected call
            × (run env getenv connections s
                ≡ replay env call.settings.payment_events_topic call.letter call.operator
                    call.reason s))
  unfolding run
  run_selects s = elim (Result-cases (prepare env getenv connections)) [
    | inr (e, failed) ↦ inl (e, rw failed refl)
    | inl (call, prepared) ↦ inr (
      call,
      Yields-ok IsSelected (prepare env getenv connections) prepare-Yields prepared,
      rw prepared refl,
    )
  ]

  -- While the event of REPLAY_EVENT_ID has an audit row that did not fail, a run of the replay
  -- command returns an error, writes no message and leaves the audit table alone.
  pub run_refused :
      (s : ReplayState) (r : ReplayAudit)
      → audit_of (trimmed_env env getenv "REPLAY_EVENT_ID") s.world.db.replays ≡ some r
      → is_failed r.status ≡ false
      → let (answer, s') = run env getenv connections s in
        ((e : Error) × (answer ≡ err e)) × (s'.topic ≡ s.topic) × (s'.world.db ≡ s.world.db)
  run_refused s r h busy = elim (run_selects s) [
    | inl (e, same) ↦ rw same ((e, refl), refl, refl)
    | inr (call, selected, same) ↦
        let (_, (_, _, _, _, (_, _, _, _, event)), _, _, _) = selected in
        rw same (
          replay_refused env call.settings.payment_events_topic call.letter call.operator
            call.reason s r (rw event h) busy)
  ]
