-- ===== src/Config/Ledger.antt =====
-- services/ledger-service/internal/config/config.go: `Config` and `Validate`. Durations are `int64`.
use finflow.Base.{
  String, Bool, true, false, not, ◌&&◌, List, [], ◌∷◌, ◌++◌, length, ltb, ◌==◌, str_eq,
}
use finflow.Base.Int.{ℤ, pos, negsuc, is_non_positive}
use finflow.Go.Environment.{Environment}
use finflow.Go.Errors.{Result}
use finflow.Config.Problems.{problems_of, verdict, is_blank, is_bad_database_url}
use finflow.Config.Kafka.{KafkaSecurityConfig, validation_problems}

pub record LedgerConfig : Type 0 where
  pub app_env : String
  pub http_addr : String
  pub metrics_addr : String
  pub database_url : String
  pub internal_token : String
  pub kafka_brokers : List String
  pub payment_events_topic : String
  pub consumer_group_id : String
  pub dead_letter_topic : String
  pub consumer_max_attempts : ℤ
  pub retry_initial_backoff : ℤ
  pub retry_max_backoff : ℤ
  pub kafka_security : KafkaSecurityConfig

-- `a < b`
abbrev pub less : ℤ → ℤ → Bool
less (pos a) (pos b) = ltb a b
less (pos a) (negsuc b) = false
less (negsuc a) (pos b) = true
less (negsuc a) (negsuc b) = ltb b a

abbrev pub ledger_checks : Environment → LedgerConfig → List (Bool × String)
ledger_checks env c =
    (is_blank env c.app_env, "APP_ENV is required")
    ∷ (is_blank env c.http_addr, "LEDGER_HTTP_ADDR is required")
    ∷ (is_blank env c.metrics_addr, "METRICS_ADDR is required")
    ∷ (is_blank env c.database_url, "DATABASE_URL is required")
    ∷ (
      not (is_blank env c.database_url) && is_bad_database_url env c.database_url,
      "DATABASE_URL must be a valid database URL",
    )
    ∷ (is_blank env c.internal_token, "INTERNAL_SERVICE_TOKEN is required")
    ∷ (length c.kafka_brokers == 0, "KAFKA_BROKERS is required")
    ∷ (is_blank env c.payment_events_topic, "PAYMENT_EVENTS_TOPIC is required")
    ∷ (is_blank env c.consumer_group_id, "LEDGER_CONSUMER_GROUP_ID is required")
    ∷ (is_blank env c.dead_letter_topic, "LEDGER_DEAD_LETTER_TOPIC is required")
    ∷ (
      not (is_blank env c.dead_letter_topic) && str_eq c.dead_letter_topic c.payment_events_topic,
      "LEDGER_DEAD_LETTER_TOPIC must differ from PAYMENT_EVENTS_TOPIC",
    )
    ∷ (less c.consumer_max_attempts (pos 1), "LEDGER_CONSUMER_MAX_ATTEMPTS must be at least 1")
    ∷ (
      is_non_positive c.retry_initial_backoff,
      "LEDGER_RETRY_INITIAL_BACKOFF must be greater than zero",
    )
    ∷ (
      less c.retry_max_backoff c.retry_initial_backoff,
      "LEDGER_RETRY_MAX_BACKOFF must be at least LEDGER_RETRY_INITIAL_BACKOFF",
    )
    ∷ []

-- `Validate`
unfoldable pub validate_ledger : Environment → LedgerConfig → Result (Unit {0})
unfolding problems_of verdict validation_problems
validate_ledger env c =
    verdict (problems_of (ledger_checks env c) ++ validation_problems c.kafka_security)
