-- ===== src/Ledger/Balance/Exact.antt =====
-- What `ValidateBalanced` accepts: a specification by the sums of debits and credits in each currency.
use finflow.Base.{
  ℕ, ◌+◌, ◌%◌, ◌<◌, ◌≤◌, ◌≡◌, ◌↔◌, refl, String, true, not, ◌&&◌, List, [], ◌∷◌, All, length, arith,
  ltb, str_eq, if◌then◌else◌, eq_iff, Bool-cases, inl, inr,
}
use finflow.Base.Int.{pos_part, int64_mod, add_int64, sub_int64}
use finflow.Go.Environment.{Environment}
use finflow.Go.Errors.{Sentinel, Error, sentinel, Result, ok, err, ◌>>=◌, fail_if}
use finflow.Ledger.Model.{Direction, debit, credit, other, same_direction, Entry}
use finflow.Ledger.Balance.{
  Totals, is_known_direction, is_entry, pattern_of, move_total, sum_entries, all_zero,
  validate_balanced,
}
use finflow.Ledger.Balance.Totals.{
  value_of, IsTotals, value_of-update_total, update_total-IsTotals, value_of-lt, value_of_zero,
  all_zero_of_reads,
}

-- The cents of the entries in one direction and currency.
abbrev pub sum_of : Direction → String → List Entry → ℕ
sum_of d c [] = 0
sum_of d c (e ∷ entries) =
    (if same_direction e.direction d && str_eq e.currency c then pos_part e.amount_cents else 0)
    + sum_of d c entries

-- Debits and credits agree in every currency, as far as an `int64` can tell.
abbrev pub IsBalancedMod : List Entry → Type 0
IsBalancedMod entries =
    (c : String) → sum_of debit c entries % int64_mod ≡ sum_of credit c entries % int64_mod

abbrev pub AllEntries : Environment → List Entry → Type 0
AllEntries env entries = All (λ e. is_entry env e ≡ true) entries

move_total-IsTotals :
    (d : Direction) (c : String) (a : ℕ) (totals : Totals)
    → IsTotals totals
    → IsTotals (move_total d c a totals)
unfolding move_total
move_total-IsTotals debit c a totals h =
    update_total-IsTotals c (λ t. add_int64 t a) totals (λ t. unfold add_int64 in omega arith) h
move_total-IsTotals credit c a totals h =
    update_total-IsTotals c (λ t. sub_int64 t a) totals (λ t. unfold sub_int64 in omega arith) h
move_total-IsTotals (other s) c a totals h = h

-- One entry moves the total of its currency by its signed amount, modulo 2 ^ 64.
value_of-move_total :
    (d : Direction) (j c : String) (n : ℕ) (totals : Totals)
    → is_known_direction d ≡ true
    → (value_of j (move_total d c (n % int64_mod) totals)
          + (if same_direction d credit && str_eq c j then n else 0))
        % int64_mod
      ≡ (value_of j totals + (if same_direction d debit && str_eq c j then n else 0)) % int64_mod
unfolding move_total add_int64 sub_int64 is_known_direction
value_of-move_total debit j c n totals h =
    ground (arith, eq_iff c j, value_of-update_total j c (λ t. add_int64 t (n % int64_mod)) totals)
value_of-move_total credit j c n totals h =
    ground (arith, eq_iff c j, value_of-update_total j c (λ t. sub_int64 t (n % int64_mod)) totals)
value_of-move_total (other s) j c n totals h = cc

err≢ok {ℓ} : {A : Type ℓ} {e : Error} {a : A} → err e ≡ ok a → ⊥
err≢ok h = cc

module _ (env : Environment) where
  is_entry-direction : (e : Entry) → is_entry env e ≡ true → is_known_direction e.direction ≡ true
  is_entry-direction e h = ground arith

  is_entry-amount :
      (e : Entry)
      → is_entry env e ≡ true
      → (pattern_of e.amount_cents ≡ pos_part e.amount_cents % int64_mod)
        × (0 < pos_part e.amount_cents)
  is_entry-amount e h = ground arith

  -- An accepted list is an accepted entry and an accepted rest.
  sum_entries-cons :
      (e : Entry) (entries : List Entry) (totals totals' : Totals)
      → sum_entries env (e ∷ entries) totals ≡ ok totals'
      → (is_entry env e ≡ true)
        × (sum_entries env entries
              (move_total e.direction e.currency (pattern_of e.amount_cents) totals)
            ≡ ok totals')
  unfolding sum_entries
  sum_entries-cons e entries totals totals' h = elim (Bool-cases (is_entry env e)) [
    | inl good ↦ (good, rw good at h)
    | inr bad ↦ absurd (err≢ok (rw bad at h))
  ]

  sum_entries-reads :
      (j : String) (entries : List Entry) (totals totals' : Totals)
      → sum_entries env entries totals ≡ ok totals'
      → (value_of j totals' + sum_of credit j entries) % int64_mod
        ≡ (value_of j totals + sum_of debit j entries) % int64_mod
  sum_entries-reads j [] totals totals' h = unfold sum_entries in ground arith
  sum_entries-reads j (e ∷ entries) totals totals' h =
      let (good, rest) = sum_entries-cons e entries totals totals' h in
      omega (
        arith,
        rw (is_entry-amount e good).0 at (
            sum_entries-reads j entries
              (move_total e.direction e.currency (pattern_of e.amount_cents) totals) totals' rest),
        value_of-move_total e.direction j e.currency (pos_part e.amount_cents) totals
            (is_entry-direction e good),
      )

  sum_entries-IsTotals :
      (entries : List Entry) (totals totals' : Totals)
      → IsTotals totals
      → sum_entries env entries totals ≡ ok totals'
      → IsTotals totals' × AllEntries env entries
  sum_entries-IsTotals [] totals totals' t h = unfold sum_entries in ground arith
  sum_entries-IsTotals (e ∷ entries) totals totals' t h =
      let (good, rest) = sum_entries-cons e entries totals totals' h in
      let (t', all) =
        sum_entries-IsTotals entries
          (move_total e.direction e.currency (pattern_of e.amount_cents) totals) totals'
          (move_total-IsTotals e.direction e.currency (pattern_of e.amount_cents) totals t) rest in
      (t', (good, all))

  -- Valid entries are summed up without an error.
  sum_entries-total :
      (entries : List Entry) (totals : Totals)
      → AllEntries env entries
      → (totals' : Totals) × (sum_entries env entries totals ≡ ok totals')
  unfolding sum_entries
  sum_entries-total [] totals h = (totals, refl)
  sum_entries-total (e ∷ entries) totals h =
      let (totals', summed) =
        sum_entries-total entries
          (move_total e.direction e.currency (pattern_of e.amount_cents) totals) h.1 in
      (totals', rw h.0 summed)

  -- The second loop passes totals of zero alone.
  abbrev verdict : Result Totals → Result (Unit {0})
  verdict summed = do
    totals ← summed
    fail_if (not (all_zero totals)) (sentinel Sentinel.unbalanced_transaction)

  verdict_ok :
      (summed : Result Totals)
      → verdict summed ≡ ok tt
      → (totals : Totals) × (summed ≡ ok totals) × (all_zero totals ≡ true)
  verdict_ok (ok totals) h = (totals, refl, ground arith)
  verdict_ok (err e) h = absurd (err≢ok h)

  accepted :
      (entries : List Entry)
      → validate_balanced env entries ≡ ok tt
      → (2 ≤ length entries) × (verdict (sum_entries env entries []) ≡ ok tt)
  unfolding validate_balanced
  accepted entries h = elim (Bool-cases (ltb (length entries) 2)) [
    | inl short ↦ absurd (err≢ok (rw short at h))
    | inr long ↦ (ground arith, rw long at h)
  ]

  balanced_of_verdict :
      (entries : List Entry)
      → verdict (sum_entries env entries []) ≡ ok tt
      → AllEntries env entries × IsBalancedMod entries
  balanced_of_verdict entries h =
      let (totals, summed, zero_totals) = verdict_ok (sum_entries env entries []) h in
      (
        (sum_entries-IsTotals entries [] totals tt summed).1,
        λ c. omega (
          arith,
          sum_entries-reads c entries [] totals summed,
          value_of_zero c totals zero_totals,
        ),
      )

  verdict_of_balanced :
      (entries : List Entry)
      → AllEntries env entries
      → IsBalancedMod entries
      → verdict (sum_entries env entries []) ≡ ok tt
  verdict_of_balanced entries all same =
      let (totals, summed) = sum_entries-total entries [] all in
      let (t, _) = sum_entries-IsTotals entries [] totals tt summed in
      rw (
        summed,
        all_zero_of_reads totals t (λ c.
            omega (
              arith,
              same c,
              sum_entries-reads c entries [] totals summed,
              value_of-lt c totals t,
            )),
      )

  -- ValidateBalanced accepts exactly the lists of at least two entries, each with a positive
  -- amount, a known direction and a currency of three bytes in upper case letters, whose debits and
  -- credits agree modulo 2 ^ 64 in every currency.
  pub validate_balanced_iff :
      (entries : List Entry)
      → (validate_balanced env entries ≡ ok tt)
        ↔ ((2 ≤ length entries) × AllEntries env entries × IsBalancedMod entries)
  validate_balanced_iff entries = (
    λ h.
        let (long, passed) = accepted entries h in
        let (all, same) = balanced_of_verdict entries passed in (long, all, same),
    λ h. accepts h.0 (verdict_of_balanced entries h.1 h.2),
  )
    where
      accepts :
          2 ≤ length entries
          → verdict (sum_entries env entries []) ≡ ok tt
          → validate_balanced env entries ≡ ok tt
      accepts long passed = unfold validate_balanced in ground arith

  -- Where the debits and the credits of a currency sum to less than 2 ^ 64 each, entries that
  -- ValidateBalanced accepts debit in it exactly what they credit.
  pub validate_balanced_exact :
      (entries : List Entry) (c : String)
      → sum_of debit c entries < int64_mod
      → sum_of credit c entries < int64_mod
      → validate_balanced env entries ≡ ok tt
      → sum_of debit c entries ≡ sum_of credit c entries
  validate_balanced_exact entries c d k h = omega (arith, ((validate_balanced_iff entries).0 h).2 c)
