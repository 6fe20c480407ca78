-- ===== src/Payments/Service.antt =====
-- services/payment-service/internal/service/payment_service.go over any `PaymentRepository`.
use Prim.Native.String.{len, slice, ◌++◌ as str_append}
use finflow.Base.{
  ℕ, zero, suc, ◌/◌, ◌%◌, String, Bool, not, ◌&&◌, ◌||◌, ltb, ◌==◌, [], ◌∷◌, str_eq, if◌then◌else◌,
}
use finflow.Base.Int.{ℤ, pos, negsuc, is_non_positive}
use finflow.Go.Environment.{Environment}
use finflow.Go.Errors.{Sentinel, sentinel, is, Result, ok, err, fail_if, ◌>>◌}
use finflow.Go.Strings.{is_empty, every, trim_space, to_upper, to_lower, join}
use finflow.Postgres.{Action, pure, fail, lift, ◌>>=◌, new_uuid}
use finflow.Payments.Model.{
  PaymentStatus, Payment, CreatePaymentRequest, UpdatePaymentStatusRequest, pending, succeeded,
  failed,
}
use finflow.Payments.Repository.{PaymentRepository}

pub record CreatePaymentResult : Type 0 where
  pub payment : Payment
  pub created : Bool

-- `validateCreatePayment`
unfoldable pub validate_create_payment :
    Environment → CreatePaymentRequest → String → Result (Unit {0})
validate_create_payment env request key =
    fail_if (is_non_positive request.amount_cents) (sentinel Sentinel.validation)
    >> fail_if (not (len request.currency == 3)) (sentinel Sentinel.validation)
    >> fail_if (not (every (λ c. env.is_letter c && env.is_upper c) request.currency))
        (sentinel Sentinel.validation)
    >> fail_if (ltb 500 (len request.description)) (sentinel Sentinel.validation)
    >> fail_if (ltb 120 (len request.external_reference)) (sentinel Sentinel.validation)
    >> fail_if (ltb 120 (len key)) (sentinel Sentinel.validation)

-- `isKnownStatus`
unfoldable pub is_known_status : PaymentStatus → Bool
is_known_status s = str_eq s pending || str_eq s succeeded || str_eq s failed

-- `canTransition`
unfoldable pub can_transition : PaymentStatus → PaymentStatus → Bool
can_transition source target =
    str_eq source pending && (str_eq target succeeded || str_eq target failed)

abbrev digit : ℕ → String
digit d = slice "0123456789" d (suc d)

-- `strconv.FormatInt(n, 10)`, whose magnitude has at most 19 digits.
unfoldable digits : ℕ → ℕ → String
digits zero n = ""
digits (suc fuel) n =
    let rest = digits fuel (n / 10) in
    if ltb n 10 then digit n else str_append rest (digit (n % 10))

unfoldable format_int : ℤ → String
unfolding digits
format_int (pos n) = digits 19 n
format_int (negsuc n) = str_append "-" (digits 19 (suc n))

-- `createPaymentRequestHash`
unfoldable pub create_payment_request_hash : Environment → CreatePaymentRequest → String
unfolding format_int join
create_payment_request_hash env request = env.sha256_hex (
    join
      (format_int request.amount_cents
        ∷ request.currency
        ∷ request.description
        ∷ request.external_reference
        ∷ [])
      "\0")

abbrev pub normalize_create : Environment → CreatePaymentRequest → CreatePaymentRequest
normalize_create env request = record {
  amount_cents = request.amount_cents;
  currency = to_upper env (trim_space env request.currency);
  description = trim_space env request.description;
  external_reference = trim_space env request.external_reference;
}

-- The payment that `Create` hands to the repository; the database sets the times.
abbrev pub new_payment : Environment → String → CreatePaymentRequest → String → Payment
new_payment env id request key = record {
  id = id;
  amount_cents = request.amount_cents;
  currency = request.currency;
  status = pending;
  description = request.description;
  external_reference = request.external_reference;
  idempotency_key = key;
  idempotency_hash = if is_empty key then "" else create_payment_request_hash env request;
  created_at = 0;
  updated_at = 0;
}

-- `if errors.Is(err, target) { return target }; return err`
abbrev pub unwrapped {ℓ} : {A : Type ℓ} → Sentinel → Result A → Result A
unwrapped target (ok a) = ok a
unwrapped target (err e) = if is e target then err (sentinel target) else err e

module _ (env : Environment) {T : Type 0} (repository : PaymentRepository T) where
  -- The repository's answer, with an error that the service knows made bare.
  abbrev pub mapped : Sentinel → Action T Payment → Action T Payment
  mapped target action w = let (r, w') = action w in (unwrapped target r, w')

  abbrev pub create_valid : CreatePaymentRequest → String → Action T (Payment × Bool)
  create_valid request key w =
      let (id, w') = new_uuid env w in
      let (r, w'') = repository.create (new_payment env id request key) w' in
      (unwrapped Sentinel.idempotency_conflict r, w'')

  unfoldable pub create : CreatePaymentRequest → String → Action T CreatePaymentResult
  unfolding validate_create_payment
  create raw key_text = do
    let request = normalize_create env raw
    let key = trim_space env key_text
    valid ← lift (validate_create_payment env request key)
    (payment, created) ← create_valid request key
    pure (record { payment = payment; created = created })

  unfoldable pub get_by_id : String → Action T Payment
  get_by_id id_text =
      let id = trim_space env id_text in
      if not (env.parses id)
      then fail (sentinel Sentinel.validation)
      else mapped Sentinel.payment_not_found (repository.get_by_id id)

  -- Once the payment is read.
  unfoldable pub change_status : String → PaymentStatus → Payment → Action T Payment
  unfolding can_transition
  change_status id status current =
      if str_eq current.status status
      then pure current
      else if not (can_transition current.status status)
      then fail (sentinel Sentinel.invalid_status_transition)
      else mapped Sentinel.payment_not_found (repository.update_status id current.status status)

  unfoldable pub update_status : String → UpdatePaymentStatusRequest → Action T Payment
  unfolding is_known_status change_status
  update_status id_text request =
      let id = trim_space env id_text in
      let status = to_lower env (trim_space env request.status) in
      if not (env.parses id)
      then fail (sentinel Sentinel.validation)
      else if not (is_known_status status)
      then fail (sentinel Sentinel.validation)
      else do
        current ← mapped Sentinel.payment_not_found (repository.get_by_id id)
        change_status id status current
