-- ===== src/Config/KafkaClient.antt =====
-- services/payment-service/internal/kafkaclient/security.go, which the ledger service has a copy of. The
-- files, the packages crypto/tls and crypto/x509 and SCRAM's preparation of a password are parameters.
use Prim.Native.String.{◌++◌ as str_append}
use finflow.Base.{ℕ, String, not, ◌||◌, Option, none, some, List, [], ◌∷◌, str_eq, if◌then◌else◌}
use finflow.Go.Errors.{message, wrap, Result, ok, err, map_error, ◌>>=◌}
use finflow.Go.Strings.{is_empty}
use finflow.Config.Kafka.{KafkaSecurityConfig}

pub data ScramHash : Type 0 where
  sha256 sha512 : ScramHash

pub record TlsConfig (Pool Certificate : Type 0) : Type 0 where
  pub min_version : ℕ
  pub server_name : String
  pub root_cas : Option Pool
  pub certificates : List Certificate

-- `sasl.Mechanism`
pub data Mechanism (Scram : Type 0) : Type 0 where
  plain : String → String → Mechanism Scram
  scram : Scram → Mechanism Scram

-- What the client needs of the machine; `system_pool` is `none` at an error or without a pool, and
-- `append_certs` where no certificate was found.
pub record Machine (Pool Certificate Scram : Type 0) : Type 0 where
  pub read_file : String → Result String
  pub system_pool : Option Pool
  pub new_pool : Pool
  pub append_certs : Pool → String → Option Pool
  pub load_key_pair : String → String → Result Certificate
  pub new_scram : ScramHash → String → String → Result Scram

-- `tls.VersionTLS12`
abbrev pub version_tls12 : ℕ
version_tls12 = 771

module _ {Pool Certificate Scram : Type 0} (machine : Machine Pool Certificate Scram) where
  abbrev pub start_pool : Option Pool → Pool
  start_pool none = machine.new_pool
  start_pool (some pool) = pool

  abbrev pub with_roots :
      TlsConfig Pool Certificate → Option Pool → Result (TlsConfig Pool Certificate)
  with_roots t none = err (message "Kafka TLS CA file contains no valid certificates")
  with_roots t (some roots) = ok (record t { root_cas = some roots })

  unfoldable pub add_roots :
      KafkaSecurityConfig → TlsConfig Pool Certificate → Result (TlsConfig Pool Certificate)
  add_roots c t =
      if is_empty c.tls_ca_file
      then ok t
      else map_error (wrap "read Kafka TLS CA file") (machine.read_file c.tls_ca_file) >>= λ pem.
          with_roots t (machine.append_certs (start_pool machine.system_pool) pem)

  unfoldable pub add_certificate :
      KafkaSecurityConfig → TlsConfig Pool Certificate → Result (TlsConfig Pool Certificate)
  add_certificate c t =
      if not (is_empty c.tls_cert_file) || not (is_empty c.tls_key_file)
      then (map_error (wrap "load Kafka TLS client certificate")
            (machine.load_key_pair c.tls_cert_file c.tls_key_file)
          >>= λ certificate. ok (record t { certificates = certificate ∷ [] }))
      else ok t

  abbrev pub first_config : KafkaSecurityConfig → TlsConfig Pool Certificate
  first_config c = record {
    min_version = version_tls12;
    server_name = c.tls_server_name;
    root_cas = none;
    certificates = [];
  }

  -- `buildTLSConfig`
  unfoldable pub build_tls_config :
      KafkaSecurityConfig → Result (Option (TlsConfig Pool Certificate))
  unfolding add_roots add_certificate
  build_tls_config c =
      if not c.tls_enabled
      then ok none
      else add_roots c (first_config c) >>= λ rooted.
          add_certificate c rooted >>= λ complete. ok (some complete)

  abbrev pub build_scram : ScramHash → KafkaSecurityConfig → Result (Option (Mechanism Scram))
  build_scram hash c =
      machine.new_scram hash c.sasl_username c.sasl_password >>= λ s. ok (some (scram s))

  -- `buildSASLMechanism`; its last error has the mechanism's name without escapes.
  unfoldable pub build_sasl_mechanism : KafkaSecurityConfig → Result (Option (Mechanism Scram))
  build_sasl_mechanism c =
      if str_eq c.sasl_mechanism "" || str_eq c.sasl_mechanism "none"
      then ok none
      else if str_eq c.sasl_mechanism "plain"
      then ok (some (plain c.sasl_username c.sasl_password))
      else if str_eq c.sasl_mechanism "scram-sha-256"
      then build_scram ScramHash.sha256 c
      else if str_eq c.sasl_mechanism "scram-sha-512"
      then build_scram ScramHash.sha512 c
      else err (
          message
            (str_append "unsupported Kafka SASL mechanism \"" (str_append c.sasl_mechanism "\"")))

  -- `BuildSecurity`
  unfoldable pub build_security :
      KafkaSecurityConfig → Result (Option (TlsConfig Pool Certificate) × Option (Mechanism Scram))
  unfolding build_tls_config build_sasl_mechanism
  build_security c =
      build_tls_config c >>= λ tls. build_sasl_mechanism c >>= λ mechanism. ok (tls, mechanism)
