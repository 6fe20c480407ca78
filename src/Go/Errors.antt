-- ===== src/Go/Errors.antt =====
-- Go's `error` values: the sentinels of the two services, the errors of the database driver and of
-- Kafka, and the wrapping by `fmt.Errorf("...: %w", err)` that `errors.Is` looks through.
use Prim.Native.String.{◌++◌ as str_append}
use finflow.Base.{ℕ, String, Bool, true, false, ◌==◌, ◌≡◌, refl, ◌⊎◌, inl, inr}

pub data Sentinel : Type 0 where
  validation idempotency_conflict invalid_status_transition payment_not_found : Sentinel
  unbalanced_transaction replay_already_claimed canceled deadline_exceeded invalid_config : Sentinel

abbrev number : Sentinel → ℕ
number Sentinel.validation = 0
number Sentinel.idempotency_conflict = 1
number Sentinel.invalid_status_transition = 2
number Sentinel.payment_not_found = 3
number Sentinel.unbalanced_transaction = 4
number Sentinel.replay_already_claimed = 5
number Sentinel.canceled = 6
number Sentinel.deadline_exceeded = 7
number Sentinel.invalid_config = 8

-- `sentinel` is a package variable made by `errors.New`, `message` any other leaf, `wrap` an
-- `fmt.Errorf` with `%w` at the end, `detailed` one with `%w: %s`, and `permanent` the consumer's `permanentError`.
pub data Error : Type 0 where
  sentinel : Sentinel → Error
  message : String → Error
  wrap : String → Error → Error
  permanent : Error → Error
  detailed : Error → String → Error

-- `errors.Is(err, target)`; `permanentError` embeds the interface `error` and has no `Unwrap`
-- method, so the walk ends there.
unfoldable pub is : Error → Sentinel → Bool
is (sentinel s) t = number s == number t
is (message m) t = false
is (wrap m e) t = is e t
is (permanent e) t = false
is (detailed e d) t = is e t

-- `errors.As(err, &permanentError{})`
unfoldable pub is_permanent : Error → Bool
is_permanent (sentinel s) = false
is_permanent (message m) = false
is_permanent (wrap m e) = is_permanent e
is_permanent (permanent e) = true
is_permanent (detailed e d) = is_permanent e

-- A value, or the error that is returned in its place.
pub data Result {ℓ} (A : Type ℓ) : Type ℓ where
  ok : A → Result A
  err : Error → Result A

-- Steps of a function that returns early at an error.
module _ {ℓ κ} {A : Type ℓ} {B : Type κ} where
  infixl 5 ◌>>=◌
  abbrev pub ◌>>=◌ : Result A → (A → Result B) → Result B
  ok value >>= next = next value
  err cause >>= next = err cause

infixl 5 ◌>>◌
abbrev pub ◌>>◌ {κ} : {B : Type κ} → Result (Unit {0}) → Result B → Result B
check >> next = check >>= λ done. next

-- `if cond { return err }`
abbrev pub fail_if : Bool → Error → Result (Unit {0})
fail_if true e = err e
fail_if false e = ok tt

abbrev text_of : Sentinel → String
text_of Sentinel.validation = "validation failed"
text_of Sentinel.idempotency_conflict = "idempotency key reused with different request"
text_of Sentinel.invalid_status_transition = "invalid payment status transition"
text_of Sentinel.payment_not_found = "payment not found"
text_of Sentinel.unbalanced_transaction = "ledger transaction is not balanced"
text_of Sentinel.replay_already_claimed = "dead-letter event was already claimed for replay"
text_of Sentinel.canceled = "context canceled"
text_of Sentinel.deadline_exceeded = "context deadline exceeded"
text_of Sentinel.invalid_config = "invalid config"

-- `err.Error()`
unfoldable pub error_text : Error → String
error_text (sentinel s) = text_of s
error_text (message m) = m
error_text (wrap m e) = str_append m (str_append ": " (error_text e))
error_text (permanent e) = error_text e
error_text (detailed e d) = str_append (error_text e) (str_append ": " d)

abbrev pub map_error {ℓ} : {A : Type ℓ} → (Error → Error) → Result A → Result A
map_error f (ok a) = ok a
map_error f (err e) = err (f e)

pub Result-cases {ℓ} :
    {A : Type ℓ} (r : Result A) → ((a : A) × (r ≡ ok a)) ⊎ ((e : Error) × (r ≡ err e))
Result-cases (ok a) = inl (a, refl)
Result-cases (err e) = inr (e, refl)

-- A chain that returned a value has a first step that did.
pub ok_of_chain {ℓ κ} :
    {A : Type ℓ} {B : Type κ} (r : Result A) (f : A → Result B) {b : B}
    → (r >>= f) ≡ ok b
    → (a : A) × (r ≡ ok a) × (f a ≡ ok b)
ok_of_chain (ok a) f h = (a, refl, h)
ok_of_chain (err e) f h = cc

pub ok_of_map_error {ℓ} :
    {A : Type ℓ} (f : Error → Error) (r : Result A) {a : A} → map_error f r ≡ ok a → r ≡ ok a
ok_of_map_error f (ok a) h = h
ok_of_map_error f (err e) h = cc
