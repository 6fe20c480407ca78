-- ===== src/Tests/Config.antt =====
-- The theorems on settings, at settings like the defaults.
use finflow.Base.{
  String, All, str_eq, if◌then◌else◌, ◌<◌, ◌≤◌, ◌≡◌, ◌≢◌, ◌↔◌, refl, true, Option, none, some, List,
  [], ◌∷◌,
}
use finflow.Base.Int.{pos}
use finflow.Go.Strings.{trim_space}
use finflow.Config.Kafka.{KafkaSecurityConfig, validation_problems}
use finflow.Config.Ledger.{LedgerConfig, validate_ledger}
use finflow.Config.Valid.{IsSecured, validate_ledger_policy, validation_problems_iff}
use finflow.Go.Errors.{ok}
use finflow.Config.Payments.{validate_payments}
use finflow.Config.Gateway.{validate_gateway}
use finflow.Config.Variables.{parse_csv_env}
use finflow.Config.Load.{load_ledger, load_payments, load_gateway}
use finflow.Config.Loaded.{Gives, IsTrimmed, load-Gives}
use finflow.Config.KafkaClient.{TlsConfig, Mechanism, Machine, build_security}
use finflow.Config.Secured.{IsSecureClient, build_security-IsSecureClient}
use finflow.Tests.Inputs.{ascii}

abbrev kafka : KafkaSecurityConfig
kafka = record {
  require_secure_transport = true;
  tls_enabled = true;
  tls_ca_file = "ca.pem";
  tls_cert_file = "";
  tls_key_file = "";
  tls_server_name = "";
  sasl_mechanism = "plain";
  sasl_username = "finflow";
  sasl_password = "secret";
}

abbrev settings : LedgerConfig
settings = record {
  app_env = "local";
  http_addr = ":8081";
  metrics_addr = ":9090";
  database_url = "db";
  internal_token = "token";
  kafka_brokers = "localhost:9092" ∷ [];
  payment_events_topic = "events";
  consumer_group_id = "ledger-service";
  dead_letter_topic = "dead";
  consumer_max_attempts = pos 5;
  retry_initial_backoff = pos 250;
  retry_max_backoff = pos 5000;
  kafka_security = kafka;
}

validate_ledger_policy_example :
    (0 < 5)
    × (0 < 250)
    × (250 ≤ 5000)
    × (settings.dead_letter_topic ≢ settings.payment_events_topic)
unfolding validate_ledger trim_space
validate_ledger_policy_example = validate_ledger_policy ascii settings refl

validation_problems_iff_example : (validation_problems kafka ≡ []) ↔ IsSecured kafka
validation_problems_iff_example = validation_problems_iff kafka

abbrev variables : String → String
variables key = if str_eq key "KAFKA_BROKERS" then " a:1, ,b:2" else ""

load-Gives_example :
    Gives
      (λ c. (validate_ledger ascii c ≡ ok tt) × All (IsTrimmed ascii variables) c.kafka_brokers)
      (load_ledger ascii variables)
    × Gives
        (λ c. (validate_payments ascii c ≡ ok tt) × All (IsTrimmed ascii variables) c.kafka_brokers)
        (load_payments ascii variables)
    × Gives (λ c. validate_gateway ascii c ≡ ok tt) (load_gateway ascii variables)
load-Gives_example = load-Gives ascii variables

brokers : parse_csv_env ascii variables "KAFKA_BROKERS" "" ≡ "a:1" ∷ "b:2" ∷ []
unfolding parse_csv_env trim_space
brokers = refl

-- A pool is the list of its texts, a certificate its file's name.
abbrev machine : Machine (List String) String String
machine = record {
  read_file = λ path. ok path;
  system_pool = none;
  new_pool = [];
  append_certs = λ pool pem. some (pem ∷ pool);
  load_key_pair = λ certificate key. ok certificate;
  new_scram = λ hash user password. ok user;
}

build_security-IsSecureClient_example :
    (tls : Option (TlsConfig (List String) String)) × (mechanism : Option (Mechanism String))
    × (build_security machine kafka ≡ ok (tls, mechanism))
    × IsSecureClient machine kafka tls mechanism
unfolding validation_problems
build_security-IsSecureClient_example = build_security-IsSecureClient machine kafka refl (
  λ file. (kafka.tls_ca_file, kafka.tls_ca_file ∷ [], refl, refl),
  λ file. (kafka.tls_cert_file, refl),
  λ hash. ("finflow", refl),
)
