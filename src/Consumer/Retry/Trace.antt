-- ===== src/Consumer/Retry/Trace.antt =====
-- The runs of `handleWithRetry` as a relation: which calls it makes, and how it ends.
use finflow.Base.{
  ℕ, zero, suc, ◌+◌, ◌-◌, ◌≤◌, ◌<◌, ◌≡◌, ◌≢◌, refl, sym, true, false, Option, none, some, List,
  ◌==◌, arith, ◌⊎◌, inl, inr, Bool-cases, Option-cases,
}
use mathlib.Core.Path.{subst}
use finflow.Go.Errors.{Error, is_permanent, Result, ok, err}
use finflow.Postgres.{World}
use finflow.Consumer.Retry.{
  RetryPolicy, Handled, first_wait, other_waits, next_backoff, settle, retry_loop,
  handle_with_retry,
}

suc-pred : {n : ℕ} → 0 < n → n ≡ suc (n - 1)
suc-pred h = omega arith

module _ {T : Type 0} (handle : World T → Result (Unit {0}) × World T) (policy : RetryPolicy) where
  -- From an attempt's number, the answers to waits and a world, to the number of the last attempt, the
  -- error and the last world.
  pub data Run : ℕ → List (Option Error) → World T → ℕ → Option Error → World T → Type 0 where
    handled :
        {attempt : ℕ} {waits : List (Option Error)} {w w' : World T}
        → handle w ≡ (ok tt, w')
        → Run attempt waits w attempt none w'
    exhausted :
        {attempt : ℕ} {waits : List (Option Error)} {w w' : World T} {e : Error}
        → handle w ≡ (err e, w')
        → (is_permanent e ≡ true) ⊎ (attempt ≡ policy.max_attempts)
        → Run attempt waits w attempt (some e) w'
    interrupted :
        {attempt : ℕ} {waits : List (Option Error)} {w w' : World T} {e cause : Error}
        → handle w ≡ (err e, w')
        → is_permanent e ≡ false
        → attempt ≢ policy.max_attempts
        → first_wait waits ≡ some cause
        → Run attempt waits w attempt (some cause) w'
    again :
        {attempt last : ℕ} {waits : List (Option Error)} {w w' w'' : World T} {e : Error}
        {o : Option Error}
        → handle w ≡ (err e, w')
        → is_permanent e ≡ false
        → attempt ≢ policy.max_attempts
        → first_wait waits ≡ none
        → Run (attempt + 1) (other_waits waits) w' last o w''
        → Run attempt waits w last o w''

  abbrev RunOf : ℕ → List (Option Error) → World T → Handled × World T → Type 0
  RunOf attempt waits w (r, w') = Run attempt waits w r.attempts r.error w'

  settle_runs :
      (attempt backoff : ℕ) (waits : List (Option Error)) (w : World T) (rest : Handled × World T)
      (r : Result (Unit {0})) (w' : World T)
      → handle w ≡ (r, w')
      → (attempt ≢ policy.max_attempts → RunOf (attempt + 1) (other_waits waits) w' rest)
      → RunOf attempt waits w (settle policy attempt backoff waits rest r w')
  settle_runs attempt backoff waits w rest (ok done) w' called next = handled called
  settle_runs attempt backoff waits w rest (err e) w' called next =
      elim (Bool-cases (is_permanent e)) [
        | inl lasting ↦ rw lasting (exhausted called (inl lasting))
        | inr passing ↦ elim (Bool-cases (attempt == policy.max_attempts)) [
          | inl at_last ↦ rw (passing, at_last) (exhausted called (inr (ground arith)))
          | inr before ↦ elim (Option-cases (first_wait waits)) [
            | inl fired ↦
                rw (passing, before, fired)
                  (again called passing (ground arith) fired (next (ground arith)))
            | inr (cause, ended) ↦
                rw (passing, before, ended) (interrupted called passing (ground arith) ended)
          ]
        ]
      ]

  -- With an attempt left for each number up to the maximum, the loop makes one of the runs.
  retry_loop_runs :
      (left attempt backoff : ℕ) (waits : List (Option Error)) (w : World T)
      → attempt + left ≡ policy.max_attempts
      → RunOf attempt waits w (retry_loop handle policy (suc left) attempt backoff waits w)
  unfolding retry_loop
  retry_loop_runs zero attempt backoff waits w h =
      settle_runs attempt backoff waits w _ (handle w).0 (handle w).1 refl
        (λ more. absurd (more (omega arith)))
  retry_loop_runs (suc left) attempt backoff waits w h =
      settle_runs attempt backoff waits w _ (handle w).0 (handle w).1 refl (λ _.
        retry_loop_runs left (attempt + 1) (next_backoff policy.max_backoff backoff)
          (other_waits waits) (handle w).1 (omega arith))

  -- With at least one attempt, handleWithRetry makes one of the runs of the retry machine, from
  -- attempt 1 to its last one: it ends at the first call without an error, at a permanent error or
  -- the last attempt with its error, or at an interrupted wait with the context's error.
  pub handle_with_retry_runs :
      (waits : List (Option Error)) (w : World T)
      → 0 < policy.max_attempts
      → let (r, w') = handle_with_retry handle policy waits w in Run 1 waits w r.attempts r.error w'
  unfolding handle_with_retry
  handle_with_retry_runs waits w h =
      subst (λ k. RunOf 1 waits w (retry_loop handle policy k 1 policy.initial_backoff waits w))
        (sym (suc-pred h))
        (retry_loop_runs (policy.max_attempts - 1) 1 policy.initial_backoff waits w (omega arith))

  Run-bounds :
      {attempt last : ℕ} {waits : List (Option Error)} {w w' : World T} {o : Option Error}
      → Run attempt waits w last o w'
      → attempt ≤ policy.max_attempts
      → (attempt ≤ last) × (last ≤ policy.max_attempts)
  Run-bounds (handled _) h = omega arith
  Run-bounds (exhausted _ _) h = omega arith
  Run-bounds (interrupted _ _ _ _) h = omega arith
  Run-bounds (again called passing more fired rest) h =
      let bounds = Run-bounds rest (omega arith) in omega arith

  -- With at least one attempt, handleWithRetry reports between one and max_attempts attempts.
  pub handle_with_retry_bounds :
      (waits : List (Option Error)) (w : World T)
      → 0 < policy.max_attempts
      → let (r, _) = handle_with_retry handle policy waits w in
        (1 ≤ r.attempts) × (r.attempts ≤ policy.max_attempts)
  handle_with_retry_bounds waits w h = Run-bounds (handle_with_retry_runs waits w h) h
