-- ===== src/Replay/Claims.antt =====
-- The audit table lets an event be replayed only while it has no row, or a failed one.
use finflow.Base.{ℕ, ◌+◌, ◌≡◌, refl, String, false, Option, none, some, arith, inl, inr}
use finflow.Go.Environment.{Environment}
use finflow.Go.Errors.{Sentinel, Error, sentinel, wrap, Result, ok, err}
use finflow.Postgres.{World, statement, lift}
use finflow.Postgres.Atomic.{statement_ok, statement_db, bind_cases}
use finflow.Consumer.DeadLetter.{DeadLetterRecord}
use finflow.Replay.Audit.{
  ReplaySource, ReplayAudit, ReplayDb, is_failed, audit_of, claimed, start_replay_query,
  start_replay,
}
use finflow.Replay.Replayer.{
  ReplayState, replay_source, check_letter, republish, claim_and_republish, replay,
}

module _ (env : Environment) where
  -- A row that did not fail refuses the claim, and the table stays as it is.
  start_replay_query_refused :
      (id_text : String) (source : ReplaySource) (now : ℕ) (db db' : ReplayDb) (r : ReplayAudit)
      {answer : Option String}
      → audit_of source.event_id db.replays ≡ some r
      → is_failed r.status ≡ false
      → start_replay_query env id_text source now db ≡ ok (answer, db')
      → (answer ≡ none) × (db' ≡ db)
  unfolding start_replay_query
  start_replay_query_refused id_text source now db db' r h busy e = ground arith

  -- The statement of `StartReplay`, in the world where the new id is drawn.
  abbrev start_statement : ReplaySource → World ReplayDb → Result (Option String) × World ReplayDb
  start_statement source w =
      statement (wrap "start dead-letter replay audit")
        (start_replay_query env (env.new_string w.next_id) source)
        (record w { next_id = w.next_id + 1 })

  start_statement_refused :
      (source : ReplaySource) (w : World ReplayDb) (r : ReplayAudit)
      → audit_of source.event_id w.db.replays ≡ some r
      → is_failed r.status ≡ false
      → (start_statement source w).1.db ≡ w.db
  start_statement_refused source w r h busy =
      elim (statement_db (wrap "start dead-letter replay audit")
        (start_replay_query env (env.new_string w.next_id) source)
        (record w { next_id = w.next_id + 1 })) [
          | inl same ↦ same
          | inr (answer, ran) ↦
              (start_replay_query_refused (env.new_string w.next_id) source w.clock w.db _ r h busy
                ran).1
        ]

  -- A claim on an event whose row did not fail is refused, and changes nothing.
  claim_refused :
      (source : ReplaySource) (w : World ReplayDb) (r : ReplayAudit)
      → audit_of source.event_id w.db.replays ≡ some r
      → is_failed r.status ≡ false
      → ((e : Error) × ((start_replay env source w).0 ≡ err e))
        × ((start_replay env source w).1.db ≡ w.db)
  unfolding start_replay
  claim_refused source w r h busy =
      let same = start_statement_refused source w r h busy in
      elim (bind_cases
        (statement (wrap "start dead-letter replay audit")
          (start_replay_query env (env.new_string w.next_id) source))
        (λ row. lift (claimed row)) (record w { next_id = w.next_id + 1 })) [
          | inl (e, _, ends) ↦ rw ends ((e, refl), same)
          | inr (answer, got, ends) ↦
              let none_back =
                (start_replay_query_refused (env.new_string w.next_id) source w.clock w.db _ r h
                  busy
                  (statement_ok (wrap "start dead-letter replay audit")
                    (start_replay_query env (env.new_string w.next_id) source)
                    (record w { next_id = w.next_id + 1 }) got)).0 in
              rw (ends, none_back) ((sentinel Sentinel.replay_already_claimed, refl), same)
        ]

  -- `Replay` ended with an error and wrote neither to the topic nor to the audit table.
  abbrev Refused : ReplayState → Result (Unit {0}) × ReplayState → Type 0
  Refused s (answer, s') =
      ((e : Error) × (answer ≡ err e)) × (s'.topic ≡ s.topic) × (s'.world.db ≡ s.world.db)

  republish-Refused :
      (topic : String) (letter : DeadLetterRecord) (claim : Result String) (s s' : ReplayState)
      → s'.topic ≡ s.topic
      → s'.world.db ≡ s.world.db
      → ((e : Error) × (claim ≡ err e))
      → Refused s (republish env topic letter claim s')
  republish-Refused topic letter claim s s' same same' (e, refused) =
      rw refused ((e, refl), same, same')

  claim_and_republish-Refused :
      (topic : String) (letter : DeadLetterRecord) (operator reason : String)
      (checked : Result (Unit {0})) (s : ReplayState) (r : ReplayAudit)
      → audit_of letter.event_id s.world.db.replays ≡ some r
      → is_failed r.status ≡ false
      → Refused s (claim_and_republish env topic letter operator reason checked s)
  claim_and_republish-Refused topic letter operator reason (err e) s r h busy =
      ((e, refl), refl, refl)
  claim_and_republish-Refused topic letter operator reason (ok checked) s r h busy =
      let source = replay_source env topic letter operator reason in
      let (refused, same) = claim_refused source s.world r h busy in
      republish-Refused topic letter (start_replay env source s.world).0 s
        (record s { world = (start_replay env source s.world).1 }) refl same refused

  -- While an event has an audit row that did not fail, Replay returns an error, writes no message
  -- and leaves the audit table alone.
  pub replay_refused :
      (topic : String) (letter : DeadLetterRecord) (operator reason : String) (s : ReplayState)
      (r : ReplayAudit)
      → audit_of letter.event_id s.world.db.replays ≡ some r
      → is_failed r.status ≡ false
      → let (answer, s') = replay env topic letter operator reason s in
        ((e : Error) × (answer ≡ err e)) × (s'.topic ≡ s.topic) × (s'.world.db ≡ s.world.db)
  unfolding replay
  replay_refused topic letter operator reason s r h busy =
      claim_and_republish-Refused topic letter operator reason
        (check_letter env topic letter operator reason) s r h busy
