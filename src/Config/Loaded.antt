-- ===== src/Config/Loaded.antt =====
-- What `Load` of internal/config returns: settings that `Validate` accepts, or `ErrInvalidConfig`.
use finflow.Base.{
  ◌≡◌, refl, inl, inr, String, Bool, true, false, Option, none, some, List, [], ◌∷◌, ◌++◌, All,
  Bool-cases,
}
use finflow.Base.Int.{ℤ, pos}
use finflow.Go.Environment.{Environment}
use finflow.Go.Errors.{Sentinel, is, Result, ok, err, ◌>>=◌, ◌>>◌, Result-cases}
use finflow.Go.Numbers.{parse_int64}
use finflow.Go.Strings.{is_empty, trim_space}
use finflow.Http.Access.{trim_space-idempotent}
use finflow.Config.Problems.{problems_of, verdict}
use finflow.Config.Kafka.{validation_problems}
use finflow.Config.Variables.{
  checked, checked_int, kept_parts, split_on, get_env, parse_csv_env, parse_bool, parse_int64_env,
  parse_bool_env, parse_duration_env,
}
use finflow.Config.Ledger.{LedgerConfig, ledger_checks, validate_ledger}
use finflow.Config.Payments.{PaymentConfig, payment_checks, validate_payments}
use finflow.Config.Gateway.{GatewayConfig, gateway_checks, validate_gateway}
use finflow.Config.Load.{
  ledger_settings, payment_settings, gateway_settings, load_kafka_security, load_ledger,
  load_payments, load_gateway,
}

-- A value with a property, or an error that is `ErrInvalidConfig`.
abbrev pub Gives {ℓ} : {A : Type ℓ} → (A → Type 0) → Result A → Type 0
Gives P (ok a) = P a
Gives P (err e) = is e Sentinel.invalid_config ≡ true

abbrev Any : {A : Type 0} → A → Type 0
Any a = Unit

Gives-bind :
    {A B : Type 0} (P : A → Type 0) (Q : B → Type 0) (r : Result A) (f : A → Result B)
    → Gives P r
    → ((a : A) → P a → Gives Q (f a))
    → Gives Q (r >>= f)
Gives-bind P Q (ok a) f h next = next a h
Gives-bind P Q (err e) f h next = h

Gives-weaken :
    {A : Type 0} (P Q : A → Type 0) (r : Result A) → ((a : A) → P a → Q a) → Gives P r → Gives Q r
Gives-weaken P Q (ok a) more h = more a h
Gives-weaken P Q (err e) more h = h

checked-Gives :
    {A : Type 0} (key text : String) (o : Option A) → Gives {A = A} Any (checked key text o)
unfolding is
checked-Gives key text none = refl
checked-Gives key text (some a) = tt

checked_int-Gives : (key text : String) (r : Result ℤ) → Gives {A = ℤ} Any (checked_int key text r)
unfolding is
checked_int-Gives key text (ok a) = tt
checked_int-Gives key text (err e) = refl

verdict-Gives : (problems : List String) → Gives {A = Unit {0}} Any (verdict problems)
unfolding verdict is
verdict-Gives [] = tt
verdict-Gives (p ∷ problems) = refl

module _ (env : Environment) (getenv : String → String) where
  parse_int64_env-Gives :
      (key : String) (z : ℤ) → Gives {A = ℤ} Any (parse_int64_env env getenv key z)
  unfolding parse_int64_env
  parse_int64_env-Gives key z = elim (Bool-cases (is_empty (trim_space env (getenv key)))) [
    | inl unset ↦ rw unset tt
    | inr given ↦
        rw given (checked_int-Gives key "an integer" (parse_int64 (trim_space env (getenv key))))
  ]

  parse_bool_env-Gives :
      (key : String) (b : Bool) → Gives {A = Bool} Any (parse_bool_env env getenv key b)
  unfolding parse_bool_env
  parse_bool_env-Gives key b = elim (Bool-cases (is_empty (trim_space env (getenv key)))) [
    | inl unset ↦ rw unset tt
    | inr given ↦
        rw given (checked-Gives key "a boolean" (parse_bool (trim_space env (getenv key))))
  ]

  parse_duration_env-Gives :
      (key : String) (z : ℤ) → Gives {A = ℤ} Any (parse_duration_env env getenv key z)
  unfolding parse_duration_env
  parse_duration_env-Gives key z = elim (Bool-cases (is_empty (trim_space env (getenv key)))) [
    | inl unset ↦ rw unset tt
    | inr given ↦
        rw given (checked-Gives key "a duration" (env.parse_duration (trim_space env (getenv key))))
  ]

  load_kafka_security-Gives : Gives Any (load_kafka_security env getenv)
  unfolding load_kafka_security
  load_kafka_security-Gives =
      Gives-bind Any Any _ _ (parse_bool_env-Gives "KAFKA_REQUIRE_SECURE_TRANSPORT" false)
        (λ secure u.
          Gives-bind Any Any _ _ (parse_bool_env-Gives "KAFKA_TLS_ENABLED" false) (λ enabled v. tt))

  -- A broker of the list: not blank, and without spaces around it.
  abbrev pub IsTrimmed : String → Type 0
  IsTrimmed s = (trim_space env s ≡ s) × (is_empty s ≡ false)

  kept_parts-IsTrimmed : (parts : List String) → All IsTrimmed (kept_parts env getenv parts)
  unfolding kept_parts
  kept_parts-IsTrimmed [] = tt
  kept_parts-IsTrimmed (part ∷ parts) = elim (Bool-cases (is_empty (trim_space env part))) [
    | inl blank ↦ rw blank (kept_parts-IsTrimmed parts)
    | inr kept ↦ rw kept ((trim_space-idempotent env part, kept), kept_parts-IsTrimmed parts)
  ]

  parse_csv_env-IsTrimmed :
      (key fallback : String) → All IsTrimmed (parse_csv_env env getenv key fallback)
  unfolding parse_csv_env
  parse_csv_env-IsTrimmed key fallback =
      kept_parts-IsTrimmed (split_on b',' (get_env env getenv key fallback))

  validated-Gives :
      {C : Type 0} (validate : C → Result (Unit {0})) (P : C → Type 0) (c : C)
      → Gives {A = Unit {0}} Any (validate c)
      → P c
      → Gives (λ c. (validate c ≡ ok tt) × P c) (validate c >> ok c)
  validated-Gives validate P c sound h = elim (Result-cases (validate c)) [
    | inl (u, accepted) ↦ rw accepted (accepted, h)
    | inr (e, refused) ↦ rw refused (rw refused at sound)
  ]

  ledger_verdict : (c : LedgerConfig) → Gives {A = Unit {0}} Any (validate_ledger env c)
  unfolding validate_ledger
  ledger_verdict c =
      verdict-Gives (problems_of (ledger_checks env c) ++ validation_problems c.kafka_security)

  payment_verdict : (c : PaymentConfig) → Gives {A = Unit {0}} Any (validate_payments env c)
  unfolding validate_payments
  payment_verdict c =
      verdict-Gives (problems_of (payment_checks env c) ++ validation_problems c.kafka_security)

  gateway_verdict : (c : GatewayConfig) → Gives {A = Unit {0}} Any (validate_gateway env c)
  unfolding validate_gateway
  gateway_verdict c = verdict-Gives (problems_of (gateway_checks env c))

  load_ledger-Gives :
      Gives
        (λ c. (validate_ledger env c ≡ ok tt) × All IsTrimmed c.kafka_brokers)
        (load_ledger env getenv)
  unfolding load_ledger
  load_ledger-Gives = Gives-bind Any _ _ _ load_kafka_security-Gives (λ kafka u1.
      Gives-bind Any _ _ _ (parse_int64_env-Gives "LEDGER_CONSUMER_MAX_ATTEMPTS" (pos 5))
        (λ attempts u2.
          Gives-bind Any _ _ _
            (parse_duration_env-Gives "LEDGER_RETRY_INITIAL_BACKOFF" (pos 250_000_000))
            (λ initial u3.
              Gives-bind Any _ _ _
                (parse_duration_env-Gives "LEDGER_RETRY_MAX_BACKOFF" (pos 5_000_000_000))
                (λ most u4.
                  let c = ledger_settings env getenv kafka attempts initial most in
                  validated-Gives (validate_ledger env) (λ c. All IsTrimmed c.kafka_brokers) c
                    (ledger_verdict c)
                    (parse_csv_env-IsTrimmed "KAFKA_BROKERS" "localhost:9092")))))

  load_payments-Gives :
      Gives
        (λ c. (validate_payments env c ≡ ok tt) × All IsTrimmed c.kafka_brokers)
        (load_payments env getenv)
  unfolding load_payments
  load_payments-Gives = Gives-bind Any _ _ _ load_kafka_security-Gives (λ kafka u1.
      Gives-bind Any _ _ _ (parse_int64_env-Gives "MAX_REQUEST_BODY_BYTES" (pos 1_048_576))
        (λ most u2.
          let c = payment_settings env getenv kafka most in
          validated-Gives (validate_payments env) (λ c. All IsTrimmed c.kafka_brokers) c
            (payment_verdict c) (parse_csv_env-IsTrimmed "KAFKA_BROKERS" "localhost:9092")))

  load_gateway-Gives :
      Gives (λ c. (validate_gateway env c ≡ ok tt) × Unit {0}) (load_gateway env getenv)
  unfolding load_gateway
  load_gateway-Gives =
      Gives-bind Any _ _ _ (parse_int64_env-Gives "MAX_REQUEST_BODY_BYTES" (pos 1_048_576))
        (λ most u1.
          Gives-bind Any _ _ _ (parse_int64_env-Gives "GATEWAY_RATE_LIMIT_REQUESTS" (pos 120))
            (λ requests u2.
              Gives-bind Any _ _ _
                (parse_duration_env-Gives "GATEWAY_RATE_LIMIT_WINDOW" (pos 60_000_000_000))
                (λ window u3.
                  let c = gateway_settings env getenv most requests window in
                  validated-Gives (validate_gateway env) (λ c. Unit {0}) c (gateway_verdict c) tt)))

  -- Whatever the environment variables, Load of each service returns settings that Validate
  -- accepts, in the ledger and the payment service with brokers that are not blank and have no
  -- spaces around them, or an error that is ErrInvalidConfig.
  pub load-Gives :
      Gives
        (λ c. (validate_ledger env c ≡ ok tt) × All IsTrimmed c.kafka_brokers)
        (load_ledger env getenv)
      × Gives
          (λ c. (validate_payments env c ≡ ok tt) × All IsTrimmed c.kafka_brokers)
          (load_payments env getenv)
      × Gives (λ c. validate_gateway env c ≡ ok tt) (load_gateway env getenv)
  load-Gives = (
    load_ledger-Gives,
    load_payments-Gives,
    Gives-weaken _ (λ c. validate_gateway env c ≡ ok tt) (load_gateway env getenv) (λ c h. h.0)
        load_gateway-Gives,
  )
