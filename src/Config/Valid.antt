-- ===== src/Config/Valid.antt =====
-- What settings that pass `Validate` guarantee to the code that runs on them.
use finflow.Base.{◌<◌, ◌≤◌, ◌≡◌, Bool, true, false, ◌||◌, [], All, str_eq, arith, ◌↔◌, ◌≢◌, eq_iff}
use finflow.Base.Int.{ℤ, pos, negsuc, pos_part, is_non_positive}
use finflow.Go.Environment.{Environment}
use finflow.Go.Errors.{ok}
use finflow.Go.Strings.{is_empty}
use finflow.Config.Problems.{problems_of_iff, checked_iff}
use finflow.Config.Kafka.{
  KafkaSecurityConfig, is_no_mechanism, is_mechanism, differ, kafka_checks, validation_problems,
}
use finflow.Config.Ledger.{LedgerConfig, less, ledger_checks, validate_ledger}
use finflow.Consumer.Retry.{RetryPolicy}

-- `NewPaymentConsumer` is given these settings.
abbrev pub policy_of : LedgerConfig → RetryPolicy
policy_of c = record {
  max_attempts = pos_part c.consumer_max_attempts;
  initial_backoff = pos_part c.retry_initial_backoff;
  max_backoff = pos_part c.retry_max_backoff;
}

validate_ledger_tests :
    (env : Environment) (c : LedgerConfig)
    → (validate_ledger env c ≡ ok tt) ↔ (
        All (λ t. t.0 ≡ false) (ledger_checks env c)
        × All (λ t. t.0 ≡ false) (kafka_checks c.kafka_security))
unfolding validate_ledger validation_problems
validate_ledger_tests env c = checked_iff (ledger_checks env c) (kafka_checks c.kafka_security)

at_least_one : (z : ℤ) → less z (pos 1) ≡ false → 0 < pos_part z
at_least_one (pos n) h = ground arith
at_least_one (negsuc n) h = cc

is_positive : (z : ℤ) → is_non_positive z ≡ false → 0 < pos_part z
is_positive (pos n) h = ground arith
is_positive (negsuc n) h = cc

not_less : (a b : ℤ) → less a b ≡ false → is_non_positive b ≡ false → pos_part b ≤ pos_part a
not_less (pos a) (pos b) h p = ground arith
not_less (negsuc a) (pos b) h p = cc
not_less a (negsuc b) h p = cc

-- Settings of the ledger service that pass Validate give the consumer a retry policy of at least
-- one attempt, whose initial wait is positive and at most the maximal one, and a dead-letter topic
-- other than the topic it consumes.
pub validate_ledger_policy :
    (env : Environment) (c : LedgerConfig)
    → validate_ledger env c ≡ ok tt
    → (0 < (policy_of c).max_attempts)
      × (0 < (policy_of c).initial_backoff)
      × ((policy_of c).initial_backoff ≤ (policy_of c).max_backoff)
      × (c.dead_letter_topic ≢ c.payment_events_topic)
validate_ledger_policy env c h =
    let (own, kafka) = (validate_ledger_tests env c).0 h in
    let (
      _,
      (_, (_, (_, (_, (_, (_, (_, (_, (blank, (same, (attempts, (initial, (most, _))))))))))))),
    ) =
      own in
    (
      at_least_one c.consumer_max_attempts attempts,
      is_positive c.retry_initial_backoff initial,
      not_less c.retry_max_backoff c.retry_initial_backoff most initial,
      λ e. differ_topics (rw blank at same) e,
    )
  where
    differ_topics :
        str_eq c.dead_letter_topic c.payment_events_topic ≡ false
        → c.dead_letter_topic ≡ c.payment_events_topic
        → ⊥
    differ_topics h e = ground (arith, eq_iff c.dead_letter_topic c.payment_events_topic)

-- What Kafka's settings promise: no transport in the clear where it is required to be secure or where a
-- password is sent as it is, and credentials exactly where a mechanism uses them.
pub record IsSecured (c : KafkaSecurityConfig) : Type 0 where
  pub required : c.require_secure_transport ≡ true → c.tls_enabled ≡ true
  pub plain : c.sasl_mechanism ≡ "plain" → c.tls_enabled ≡ true
  pub known : (is_no_mechanism c.sasl_mechanism || is_mechanism c.sasl_mechanism) ≡ true
  pub credentials :
      is_mechanism c.sasl_mechanism ≡ true
      → (is_empty c.sasl_username ≡ false) × (is_empty c.sasl_password ≡ false)
  pub no_credentials :
      is_no_mechanism c.sasl_mechanism ≡ true
      → (is_empty c.sasl_username ≡ true) × (is_empty c.sasl_password ≡ true)
  pub key_pair : is_empty c.tls_cert_file ≡ is_empty c.tls_key_file
  pub no_files :
      c.tls_enabled ≡ false
      → (is_empty c.tls_ca_file ≡ true)
        × (is_empty c.tls_cert_file ≡ true)
        × (is_empty c.tls_key_file ≡ true)
        × (is_empty c.tls_server_name ≡ true)

secured : (c : KafkaSecurityConfig) → validation_problems c ≡ [] → IsSecured c
unfolding validation_problems
secured c h =
    let (required, (files, (pair, (unused, (used, (known, (plain, _))))))) =
      (problems_of_iff (kafka_checks c)).0 h in
    record {
      required = λ e. ground arith;
      plain = λ e. ground (arith, eq_iff c.sasl_mechanism "plain");
      known = ground arith;
      credentials = λ e. ground arith;
      no_credentials = λ e. ground arith;
      key_pair = ground arith;
      no_files = λ e. ground arith;
    }

pair_differs : (a b : Bool) → a ≡ b → differ a b ≡ false
pair_differs true b h = ground arith
pair_differs false b h = ground arith

unsecured : (c : KafkaSecurityConfig) → IsSecured c → validation_problems c ≡ []
unfolding validation_problems
unsecured c s = (problems_of_iff (kafka_checks c)).1 (
  ground (arith, s.required),
  (
    ground (arith, s.no_files),
    (
      pair_differs (is_empty c.tls_cert_file) (is_empty c.tls_key_file) s.key_pair,
      (
        ground (arith, s.no_credentials),
        (
          ground (arith, s.credentials),
          (ground (arith, s.known), (ground (arith, eq_iff c.sasl_mechanism "plain", s.plain), tt)),
        ),
      ),
    ),
  ),
)

-- ValidationProblems finds nothing exactly where Kafka's settings use TLS if it is required or if
-- the mechanism is plain, name a known mechanism or none, carry credentials exactly for a
-- mechanism, pair certificate and key, and name no TLS files without TLS.
pub validation_problems_iff : (c : KafkaSecurityConfig) → (validation_problems c ≡ []) ↔ IsSecured c
validation_problems_iff c = (secured c, unsecured c)
