-- ===== src/Ledger/Balance.antt =====
-- `ValidateBalanced` of services/ledger-service/internal/service/ledger_service.go, with the wrapping
-- `int64` totals that it keeps for each currency.
pub mod Totals
pub mod Exact
use Prim.Native.String.{len}
use finflow.Base.{
  ℕ, ◌-◌, ◌%◌, String, Bool, true, false, not, ◌&&◌, ◌||◌, List, [], ◌∷◌, length, ltb, ◌==◌, str_eq,
  if◌then◌else◌,
}
use finflow.Base.Int.{ℤ, pos, negsuc, is_non_positive, int64_mod, add_int64, sub_int64}
use finflow.Go.Environment.{Environment}
use finflow.Go.Errors.{Sentinel, sentinel, Result, ok, err, ◌>>=◌, ◌>>◌, fail_if}
use finflow.Go.Strings.{every}
use finflow.Ledger.Model.{Direction, debit, credit, other, Entry}

unfoldable pub is_known_direction : Direction → Bool
is_known_direction debit = true
is_known_direction credit = true
is_known_direction (other s) = false

unfoldable pub is_currency : Environment → String → Bool
unfolding every
is_currency env currency =
    if len currency == 3 then every (λ c. env.is_upper c && env.is_letter c) currency else false

-- The two's complement pattern of an `int64`.
abbrev pub pattern_of : ℤ → ℕ
pattern_of (pos n) = n % int64_mod
pattern_of (negsuc n) = int64_mod - 1 - n % int64_mod

-- `map[string]int64`
abbrev pub Totals : Type 0
Totals = List (String × ℕ)

-- `totals[currency] = f(totals[currency])`, where a missing key reads as 0.
unfoldable pub update_total : String → (ℕ → ℕ) → Totals → Totals
update_total c f [] = (c, f 0) ∷ []
update_total c f ((d, t) ∷ totals) =
    if str_eq d c then (d, f t) ∷ totals else (d, t) ∷ update_total c f totals

-- The `switch` of the loop.
unfoldable pub move_total : Direction → String → ℕ → Totals → Totals
unfolding update_total add_int64 sub_int64
move_total debit c a totals = update_total c (λ t. add_int64 t a) totals
move_total credit c a totals = update_total c (λ t. sub_int64 t a) totals
move_total (other s) c a totals = totals

abbrev pub is_entry : Environment → Entry → Bool
is_entry env e = not (
    is_non_positive e.amount_cents
    || not (is_known_direction e.direction)
    || not (is_currency env e.currency))

-- The first loop.
unfoldable pub sum_entries : Environment → List Entry → Totals → Result Totals
unfolding move_total is_known_direction
sum_entries env [] totals = ok totals
sum_entries env (e ∷ entries) totals =
    let rest =
      sum_entries env entries
        (move_total e.direction e.currency (pattern_of e.amount_cents) totals) in
    if is_entry env e then rest else err (sentinel Sentinel.validation)

-- The second loop.
unfoldable pub all_zero : Totals → Bool
all_zero [] = true
all_zero ((c, t) ∷ totals) = t == 0 && all_zero totals

unfoldable pub validate_balanced : Environment → List Entry → Result (Unit {0})
unfolding sum_entries all_zero
validate_balanced env entries = do
  fail_if (ltb (length entries) 2) (sentinel Sentinel.unbalanced_transaction)
  totals ← sum_entries env entries []
  fail_if (not (all_zero totals)) (sentinel Sentinel.unbalanced_transaction)
