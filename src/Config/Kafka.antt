-- ===== src/Config/Kafka.antt =====
-- services/ledger-service/internal/config/kafka_security.go, which the payment service has a copy of.
use finflow.Base.{String, Bool, true, false, not, ◌&&◌, ◌||◌, List, [], ◌∷◌, str_eq}
use finflow.Go.Strings.{is_empty}
use finflow.Config.Problems.{problems_of}

pub record KafkaSecurityConfig : Type 0 where
  pub require_secure_transport : Bool
  pub tls_enabled : Bool
  pub tls_ca_file : String
  pub tls_cert_file : String
  pub tls_key_file : String
  pub tls_server_name : String
  pub sasl_mechanism : String
  pub sasl_username : String
  pub sasl_password : String

abbrev pub differ : Bool → Bool → Bool
differ true b = not b
differ false b = b

abbrev pub is_no_mechanism : String → Bool
is_no_mechanism m = str_eq m "none" || str_eq m ""

abbrev pub is_mechanism : String → Bool
is_mechanism m = str_eq m "plain" || str_eq m "scram-sha-256" || str_eq m "scram-sha-512"

-- The `switch` on the mechanism.
abbrev pub sasl_checks : KafkaSecurityConfig → List (Bool × String)
sasl_checks c =
    (
      is_no_mechanism c.sasl_mechanism
          && (not (is_empty c.sasl_username) || not (is_empty c.sasl_password)),
      "Kafka SASL credentials require KAFKA_SASL_MECHANISM",
    )
    ∷ (
      is_mechanism c.sasl_mechanism && (is_empty c.sasl_username || is_empty c.sasl_password),
      "KAFKA_SASL_USERNAME and KAFKA_SASL_PASSWORD are required when SASL is enabled",
    )
    ∷ (
      not (is_no_mechanism c.sasl_mechanism) && not (is_mechanism c.sasl_mechanism),
      "KAFKA_SASL_MECHANISM must be none, plain, scram-sha-256, or scram-sha-512",
    )
    ∷ (
      str_eq c.sasl_mechanism "plain" && not c.tls_enabled,
      "KAFKA_TLS_ENABLED must be true when SASL PLAIN is used",
    )
    ∷ []

abbrev pub kafka_checks : KafkaSecurityConfig → List (Bool × String)
kafka_checks c =
    (
      c.require_secure_transport && not c.tls_enabled,
      "KAFKA_TLS_ENABLED must be true when KAFKA_REQUIRE_SECURE_TRANSPORT is true",
    )
    ∷ (
      not c.tls_enabled
          && (not (is_empty c.tls_ca_file)
              || not (is_empty c.tls_cert_file)
              || not (is_empty c.tls_key_file)
              || not (is_empty c.tls_server_name)),
      "Kafka TLS settings require KAFKA_TLS_ENABLED=true",
    )
    ∷ (
      differ (is_empty c.tls_cert_file) (is_empty c.tls_key_file),
      "KAFKA_TLS_CERT_FILE and KAFKA_TLS_KEY_FILE must be set together",
    )
    ∷ sasl_checks c

-- `validationProblems`
unfoldable pub validation_problems : KafkaSecurityConfig → List String
unfolding problems_of
validation_problems c = problems_of (kafka_checks c)
