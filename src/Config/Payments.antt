-- ===== src/Config/Payments.antt =====
-- services/payment-service/internal/config/config.go: `Config` and `Validate`.
use finflow.Base.{String, Bool, not, ◌&&◌, List, [], ◌∷◌, ◌++◌, length, ◌==◌}
use finflow.Base.Int.{ℤ, is_non_positive}
use finflow.Go.Environment.{Environment}
use finflow.Go.Errors.{Result}
use finflow.Config.Problems.{problems_of, verdict, is_blank, is_bad_database_url}
use finflow.Config.Kafka.{KafkaSecurityConfig, validation_problems}

pub record PaymentConfig : Type 0 where
  pub app_env : String
  pub http_addr : String
  pub metrics_addr : String
  pub database_url : String
  pub migrations_dir : String
  pub internal_token : String
  pub max_body_bytes : ℤ
  pub kafka_brokers : List String
  pub payment_events_topic : String
  pub kafka_security : KafkaSecurityConfig

abbrev pub payment_checks : Environment → PaymentConfig → List (Bool × String)
payment_checks env c =
    (is_blank env c.app_env, "APP_ENV is required")
    ∷ (is_blank env c.http_addr, "HTTP_ADDR is required")
    ∷ (is_blank env c.metrics_addr, "METRICS_ADDR is required")
    ∷ (is_blank env c.database_url, "DATABASE_URL is required")
    ∷ (
      not (is_blank env c.database_url) && is_bad_database_url env c.database_url,
      "DATABASE_URL must be a valid database URL",
    )
    ∷ (is_blank env c.migrations_dir, "MIGRATIONS_DIR is required")
    ∷ (is_blank env c.internal_token, "INTERNAL_SERVICE_TOKEN is required")
    ∷ (is_non_positive c.max_body_bytes, "MAX_REQUEST_BODY_BYTES must be greater than zero")
    ∷ (length c.kafka_brokers == 0, "KAFKA_BROKERS is required")
    ∷ (is_blank env c.payment_events_topic, "PAYMENT_EVENTS_TOPIC is required")
    ∷ []

-- `Validate`
unfoldable pub validate_payments : Environment → PaymentConfig → Result (Unit {0})
unfolding problems_of verdict validation_problems
validate_payments env c =
    verdict (problems_of (payment_checks env c) ++ validation_problems c.kafka_security)
