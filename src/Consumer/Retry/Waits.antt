-- ===== src/Consumer/Retry/Waits.antt =====
-- The waits of `handleWithRetry`: one before each further attempt, doubled from the initial one and
-- never above the maximum.
use finflow.Base.{
  ℕ, zero, suc, ◌+◌, ◌-◌, ◌*◌, ◌^◌, ◌≤◌, ◌<◌, ◌≡◌, ◌≢◌, sym, Bool-cases, inl, inr, ◌||◌, Option,
  List, [], ◌∷◌, ◌==◌, arith, length, All,
}
use Prim.Native.Nat.{min}
use mathlib.Core.Path.{subst}
use finflow.Go.Errors.{Error, is_permanent, Result, ok, err}
use finflow.Postgres.{World}
use finflow.Consumer.Retry.{
  RetryPolicy, Handled, other_waits, settle, next_backoff, retry_loop, handle_with_retry,
}

suc-pred : {n : ℕ} → 0 < n → n ≡ suc (n - 1)
suc-pred h = omega arith

-- Below 2 ^ 62 nanoseconds (146 years) the doubling does not wrap.
pub next_backoff-min :
    (max_backoff backoff : ℕ)
    → max_backoff < 2 ^ 62
    → backoff ≤ max_backoff
    → next_backoff max_backoff backoff ≡ min (backoff * 2) max_backoff
unfolding next_backoff
next_backoff-min max_backoff backoff h k = ground arith

-- The capped powers of two, as many as there were waits.
abbrev pub IsDoubling : ℕ → ℕ → List ℕ → Type 0
IsDoubling max_backoff backoff [] = Unit
IsDoubling max_backoff backoff (d ∷ waited) =
    (d ≡ backoff) × IsDoubling max_backoff (min (backoff * 2) max_backoff) waited

module _ {T : Type 0} (handle : World T → Result (Unit {0}) × World T) (policy : RetryPolicy) where
  -- The waits of a loop from an attempt's number and a wait.
  abbrev Waited : ℕ → ℕ → Handled → Type 0
  Waited attempt backoff r =
      IsDoubling policy.max_backoff backoff r.waited
      × All (λ d. d ≤ policy.max_backoff) r.waited
      × (attempt + length r.waited ≡ r.attempts)

  settle_waits :
      (attempt backoff : ℕ) (waits : List (Option Error)) (rest : Handled × World T)
      (r : Result (Unit {0})) (w : World T)
      → backoff ≤ policy.max_backoff
      → (attempt ≢ policy.max_attempts
          → Waited (attempt + 1) (min (backoff * 2) policy.max_backoff) rest.0)
      → Waited attempt backoff (settle policy attempt backoff waits rest r w).0
  settle_waits attempt backoff waits rest (ok done) w h k = (tt, tt, omega arith)
  settle_waits attempt backoff waits rest (err e) w h k =
      elim (Bool-cases (is_permanent e || attempt == policy.max_attempts)) [
        | inl ended ↦ rw ended (tt, tt, omega arith)
        | inr more ↦ let rest_waits = k (ground arith) in rw more (ground arith)
      ]

  retry_loop_waits :
      (left attempt backoff : ℕ) (waits : List (Option Error)) (w : World T)
      → policy.max_backoff < 2 ^ 62
      → backoff ≤ policy.max_backoff
      → attempt + left ≡ policy.max_attempts
      → Waited attempt backoff (retry_loop handle policy (suc left) attempt backoff waits w).0
  unfolding retry_loop
  retry_loop_waits zero attempt backoff waits w small h e =
      settle_waits attempt backoff waits _ (handle w).0 (handle w).1 h
        (λ more. absurd (more (omega arith)))
  retry_loop_waits (suc left) attempt backoff waits w small h e =
      settle_waits attempt backoff waits _ (handle w).0 (handle w).1 h (λ _.
        rw (← next_backoff-min policy.max_backoff backoff small h) (
          retry_loop_waits left (attempt + 1) (next_backoff policy.max_backoff backoff)
            (other_waits waits) (handle w).1 small
            (rw (next_backoff-min policy.max_backoff backoff small h) (omega arith)) (omega arith)))

  -- With at least one attempt and an initial wait up to the maximal one, which is below 2 ^ 62 ns,
  -- handleWithRetry waits once before each attempt after the first: the initial wait, then its
  -- doubles, each cut down to the maximum.
  pub handle_with_retry_waits :
      (waits : List (Option Error)) (w : World T)
      → 0 < policy.max_attempts
      → policy.max_backoff < 2 ^ 62
      → policy.initial_backoff ≤ policy.max_backoff
      → let (r, _) = handle_with_retry handle policy waits w in
        IsDoubling policy.max_backoff policy.initial_backoff r.waited
        × All (λ d. d ≤ policy.max_backoff) r.waited
        × (length r.waited + 1 ≡ r.attempts)
  unfolding handle_with_retry
  handle_with_retry_waits waits w some_attempt small h =
      let (doubling, capped, counted) =
        subst
          (λ k.
            Waited 1 policy.initial_backoff
              (retry_loop handle policy k 1 policy.initial_backoff waits w).0)
          (sym (suc-pred some_attempt))
          (retry_loop_waits (policy.max_attempts - 1) 1 policy.initial_backoff waits w small h
            (omega arith)) in
      (doubling, capped, omega arith)
