-- ===== src/Retention/Complete.antt =====
-- `RunRule` ends, and deletes all that is eligible and nothing else.
use finflow.Base.{
  ℕ, zero, suc, ◌+◌, ◌-◌, ◌<◌, ◌≤◌, ◌≡◌, refl, sym, ap, ◌∙◌, Bool, false, not, List, [], ◌∷◌,
  count_if, select, ltb, if◌then◌else◌, arith, inl, inr, Bool-cases,
}
use finflow.Base.Int.{ℤ, pos, negsuc, pos_part, is_non_positive}
use finflow.Go.Errors.{ok}
use finflow.Postgres.{World, pure, ◌>>=◌, statement}
use finflow.Retention.{
  Rule, RuleResult, delete_first, deleted_by, count_query, delete_loop, run_rule, count_failed,
}

module _ {Row : Type 0} where
  -- The rows that are not eligible.
  abbrev pub kept : (Row → Bool) → List Row → List Row
  kept p rows = select (λ r. not (p r)) rows

  deleted_by_lem :
      (n : ℕ) (p : Row → Bool) (rows : List Row)
      → deleted_by n p rows + count_if p (delete_first n p rows) ≡ count_if p rows
  unfolding delete_first deleted_by
  deleted_by_lem n p [] = omega arith
  deleted_by_lem zero p (r ∷ rows) = omega arith
  deleted_by_lem (suc n) p (r ∷ rows) =
      ground (arith, deleted_by_lem n p rows, deleted_by_lem (suc n) p rows)

  -- A batch that is not full has taken all.
  none_left :
      (n : ℕ) (p : Row → Bool) (rows : List Row)
      → deleted_by n p rows < n
      → count_if p (delete_first n p rows) ≡ 0
  unfolding delete_first deleted_by
  none_left n p [] h = refl
  none_left zero p (r ∷ rows) h = absurd (omega arith)
  none_left (suc n) p (r ∷ rows) h = ground (arith, none_left n p rows, none_left (suc n) p rows)

  kept_all : (p : Row → Bool) (rows : List Row) → count_if p rows ≡ 0 → kept p rows ≡ rows
  kept_all p [] h = refl
  kept_all p (r ∷ rows) h = ground (arith, kept_all p rows)

  -- No batch takes another row.
  pub kept-delete_first :
      (n : ℕ) (p : Row → Bool) (rows : List Row) → kept p (delete_first n p rows) ≡ kept p rows
  unfolding delete_first
  kept-delete_first n p [] = refl
  kept-delete_first zero p (r ∷ rows) = refl
  kept-delete_first (suc n) p (r ∷ rows) =
      ground (arith, kept-delete_first n p rows, kept-delete_first (suc n) p rows)

  loop_step :
      (rounds : ℕ) (rule : Rule Row) (p : Row → Bool) (batch_size : ℕ) (result : RuleResult)
      (w : World (List Row))
      → w.schedule ≡ []
      → let n = deleted_by batch_size p w.db in
        delete_loop (suc rounds) rule p batch_size result w
        ≡ (if ltb n batch_size
              then pure (record result { deleted = result.deleted + n })
              else delete_loop rounds rule p batch_size
                  (record result { deleted = result.deleted + n }))
            (record w { db = delete_first batch_size p w.db; schedule = [] })
  unfolding delete_loop statement
  loop_step rounds rule p batch_size result w quiet = rw quiet

  -- Where the database answers, enough rounds delete all eligible rows and count them.
  delete_loop_completes :
      (rounds : ℕ) (rule : Rule Row) (p : Row → Bool) (batch_size : ℕ) (result : RuleResult)
      (w : World (List Row))
      → w.schedule ≡ []
      → 0 < batch_size
      → count_if p w.db < rounds
      → let (r, w') = delete_loop rounds rule p batch_size result w in
        (r ≡ ok (record result { deleted = result.deleted + count_if p w.db }))
        × (w'.db ≡ kept p w.db)
  delete_loop_completes zero rule p batch_size result w quiet some_rows enough =
      absurd (omega arith)
  delete_loop_completes (suc rounds) rule p batch_size result w quiet some_rows enough =
      let n = deleted_by batch_size p w.db in
      let rows = delete_first batch_size p w.db in
      let total = deleted_by_lem batch_size p w.db in
      elim (Bool-cases (ltb n batch_size)) [
        | inl last ↦
            let empty = none_left batch_size p w.db (ground arith) in
            let all : n ≡ count_if p w.db = omega arith in
            rw (loop_step rounds rule p batch_size result w quiet, last)
              (
                ap (λ k. ok (record result { deleted = result.deleted + k })) all,
                sym (kept_all p rows empty) ∙ kept-delete_first batch_size p w.db,
              )
        | inr full ↦
            let taken : batch_size ≤ n = ground arith in
            let (answer, rest) =
              delete_loop_completes rounds rule p batch_size
                (record result { deleted = result.deleted + n })
                (record w { db = rows; schedule = [] }) refl some_rows (omega arith) in
            let all : result.deleted + n + count_if p rows ≡ result.deleted + count_if p w.db =
              omega arith in
            rw (loop_step rounds rule p batch_size result w quiet, full)
              (
                answer ∙ ap (λ k. ok (record result { deleted = k })) all,
                rest ∙ kept-delete_first batch_size p w.db,
              )
      ]

  count_step :
      (rule : Rule Row) (p : Row → Bool) (batch_size rounds : ℕ) (result : ℕ → RuleResult)
      (w : World (List Row))
      → w.schedule ≡ []
      → (statement (count_failed rule) (count_query p) >>= λ eligible.
            delete_loop rounds rule p batch_size (result eligible))
          w
        ≡ delete_loop rounds rule p batch_size
            (result (count_if p w.db))
            (record w { schedule = [] })
  unfolding statement
  count_step rule p batch_size rounds result w quiet = rw quiet

  -- RunRule with a positive retention and batch size, not as a dry run and on a database that
  -- answers, ends in any number of rounds that exceeds the number of eligible rows: it reports as
  -- many deleted as were eligible, and exactly the rows that are not eligible are left, in their
  -- order.
  pub run_rule_completes :
      (rounds : ℕ) (rule : Rule Row) (now : ℕ) (batch_size : ℤ) (w : World (List Row))
      → w.schedule ≡ []
      → is_non_positive rule.retention ≡ false
      → is_non_positive batch_size ≡ false
      → let p = rule.is_eligible (now - pos_part rule.retention) in
        count_if p w.db < rounds
        → let (r, w') = run_rule rounds rule now batch_size false w in
          (r
            ≡ ok (record {
              name = rule.name;
              eligible = count_if p w.db;
              deleted = count_if p w.db;
              dry_run = false;
            }))
          × (w'.db ≡ kept p w.db)
  unfolding run_rule
  run_rule_completes rounds rule now batch_size w quiet retained batched enough =
      let p = rule.is_eligible (now - pos_part rule.retention) in
      let start : ℕ → RuleResult = λ eligible. record {
        name = rule.name;
        eligible = eligible;
        deleted = 0;
        dry_run = false;
      } in
      let (answer, rest) =
        delete_loop_completes rounds rule p (pos_part batch_size) (start (count_if p w.db))
          (record w { schedule = [] }) refl (some_rows batch_size batched) enough in
      let none_before : 0 + count_if p w.db ≡ count_if p w.db = omega arith in
      rw (retained, batched, count_step rule p (pos_part batch_size) rounds start w quiet)
        (answer ∙ ap (λ k. ok (record (start (count_if p w.db)) { deleted = k })) none_before, rest)
    where
      some_rows : (z : ℤ) → is_non_positive z ≡ false → 0 < pos_part z
      some_rows (pos n) h = ground arith
      some_rows (negsuc n) h = cc
