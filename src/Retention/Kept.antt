-- ===== src/Retention/Kept.antt =====
-- `RunRule` deletes nothing that is not eligible, however the database fails.
use finflow.Base.{
  ℕ, zero, suc, ◌+◌, ◌-◌, ◌≡◌, refl, ap, ◌∙◌, Bool, true, false, List, ltb, if◌then◌else◌, arith,
  inl, inr, Bool-cases,
}
use finflow.Base.Int.{ℤ, pos_part, is_non_positive}
use finflow.Go.Errors.{Error, ok}
use finflow.Postgres.{World, Action, pure, statement}
use finflow.Postgres.Atomic.{statement_db, bind_cases}
use finflow.Retention.{
  Rule, RuleResult, delete_first, count_query, delete_query, delete_loop, run_rule, count_failed,
  delete_failed,
}
use finflow.Retention.Complete.{kept, kept-delete_first}

module _ {Row : Type 0} where
  delete_query_db :
      (n : ℕ) (p : Row → Bool) (now : ℕ) (rows : List Row) {k : ℕ} {rows' : List Row}
      → delete_query n p now rows ≡ ok (k, rows')
      → rows' ≡ delete_first n p rows
  unfolding delete_query
  delete_query_db n p now rows h = ground arith

  kept-batch :
      (f : Error → Error) (n : ℕ) (p : Row → Bool) (w : World (List Row))
      → kept p (statement f (delete_query n p) w).1.db ≡ kept p w.db
  kept-batch f n p w = elim (statement_db f (delete_query n p) w) [
    | inl same ↦ ap (λ rows. kept p rows) same
    | inr (k, ran) ↦
        ap (λ rows. kept p rows) (delete_query_db n p w.clock w.db ran) ∙ kept-delete_first n p w.db
  ]

  kept-delete_loop :
      (rounds : ℕ) (rule : Rule Row) (p : Row → Bool) (batch_size : ℕ) (result : RuleResult)
      (w : World (List Row))
      → kept p (delete_loop rounds rule p batch_size result w).1.db ≡ kept p w.db
  unfolding delete_loop
  kept-delete_loop zero rule p batch_size result w = refl
  kept-delete_loop (suc rounds) rule p batch_size result w =
      let batch = statement (delete_failed rule) (delete_query batch_size p) in
      let next : ℕ → Action (List Row) RuleResult = λ n.
        let result' = record result { deleted = result.deleted + n } in
        let again = delete_loop rounds rule p batch_size result' in
        if ltb n batch_size then pure result' else again in
      elim (bind_cases batch next w) [
        | inl (e, _, same) ↦
            ap (λ q. kept p q.1.db) same ∙ kept-batch (delete_failed rule) batch_size p w
        | inr (n, _, same) ↦
            ap (λ q. kept p q.1.db) same
            ∙ (elim (Bool-cases (ltb n batch_size)) [
              | inl last ↦ rw last
              | inr full ↦ rw full (
                  kept-delete_loop rounds rule p batch_size
                    (record result { deleted = result.deleted + n }) (batch w).1)
            ])
            ∙ kept-batch (delete_failed rule) batch_size p w
      ]

  count_db :
      (f : Error → Error) (p : Row → Bool) (w : World (List Row))
      → (statement f (count_query p) w).1.db ≡ w.db
  count_db f p w = elim (statement_db f (count_query p) w) [
    | inl same ↦ same
    | inr (k, ran) ↦ ground arith
  ]

  -- RunRule, however the database fails and in any number of rounds, deletes no row that is not
  -- eligible.
  pub kept-run_rule :
      (rounds : ℕ) (rule : Rule Row) (now : ℕ) (batch_size : ℤ) (dry_run : Bool)
      (w : World (List Row))
      → let p = rule.is_eligible (now - pos_part rule.retention) in
        kept p (run_rule rounds rule now batch_size dry_run w).1.db ≡ kept p w.db
  unfolding run_rule
  kept-run_rule rounds rule now batch_size dry_run w =
      let p = rule.is_eligible (now - pos_part rule.retention) in
      let count = statement (count_failed rule) (count_query p) in
      let start : ℕ → RuleResult = λ eligible. record {
        name = rule.name;
        eligible = eligible;
        deleted = 0;
        dry_run = dry_run;
      } in
      let next : ℕ → Action (List Row) RuleResult = λ eligible.
        if dry_run
        then pure (start eligible)
        else delete_loop rounds rule p (pos_part batch_size) (start eligible) in
      let counted = ap (λ rows. kept p rows) (count_db (count_failed rule) p w) in
      elim (Bool-cases (is_non_positive rule.retention)) [
        | inl never ↦ rw never
        | inr retained ↦ elim (Bool-cases (is_non_positive batch_size)) [
          | inl no_batch ↦ rw (retained, no_batch)
          | inr batched ↦
              rw (retained, batched)
                (elim (bind_cases count next w) [
                  | inl (e, _, same) ↦ ap (λ q. kept p q.1.db) same ∙ counted
                  | inr (n, _, same) ↦
                      ap (λ q. kept p q.1.db) same
                      ∙ (elim (Bool-cases dry_run) [
                        | inl dry ↦ rw dry
                        | inr wet ↦ rw wet (
                            kept-delete_loop rounds rule p (pos_part batch_size)
                              (record (start n) { dry_run = false }) (count w).1)
                      ])
                      ∙ counted
                ])
        ]
      ]

  -- A dry run deletes nothing.
  pub dry-run_rule :
      (rounds : ℕ) (rule : Rule Row) (now : ℕ) (batch_size : ℤ) (w : World (List Row))
      → (run_rule rounds rule now batch_size true w).1.db ≡ w.db
  unfolding run_rule
  dry-run_rule rounds rule now batch_size w =
      let p = rule.is_eligible (now - pos_part rule.retention) in
      let count = statement (count_failed rule) (count_query p) in
      let next : ℕ → Action (List Row) RuleResult = λ eligible.
        pure (record { name = rule.name; eligible = eligible; deleted = 0; dry_run = true }) in
      let counted = count_db (count_failed rule) p w in
      elim (Bool-cases (is_non_positive rule.retention)) [
        | inl never ↦ rw never refl
        | inr retained ↦ elim (Bool-cases (is_non_positive batch_size)) [
          | inl no_batch ↦ rw (retained, no_batch) refl
          | inr batched ↦
              rw (retained, batched)
                (elim (bind_cases count next w) [
                  | inl (e, _, same) ↦ ap (λ q. q.1.db) same ∙ counted
                  | inr (n, _, same) ↦ ap (λ q. q.1.db) same ∙ counted
                ])
        ]
      ]
