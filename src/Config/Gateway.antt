-- ===== src/Config/Gateway.antt =====
-- services/gateway-service/internal/config/config.go: `Config`, `Validate` and `validHTTPURL`.
use finflow.Base.{String, Bool, false, not, ◌&&◌, ◌||◌, none, some, List, [], ◌∷◌, str_eq}
use finflow.Base.Int.{ℤ, is_non_positive}
use finflow.Go.Environment.{Environment}
use finflow.Go.Errors.{Result}
use finflow.Go.Strings.{is_empty, trim_space}
use finflow.Config.Problems.{problems_of, verdict, is_blank}

pub record GatewayConfig : Type 0 where
  pub app_env : String
  pub http_addr : String
  pub api_key : String
  pub internal_token : String
  pub max_body_bytes : ℤ
  pub payment_service_url : String
  pub ledger_service_url : String
  pub rate_limit_requests : ℤ
  pub rate_limit_window : ℤ

-- `validHTTPURL`
unfoldable pub is_http_url : Environment → String → Bool
is_http_url env value = elim (env.parse_url (trim_space env value)) [
  | none ↦ false
  | some (scheme, host) ↦ (str_eq scheme "http" || str_eq scheme "https") && not (is_empty host)
]

abbrev pub gateway_checks : Environment → GatewayConfig → List (Bool × String)
gateway_checks env c =
    (is_blank env c.app_env, "APP_ENV is required")
    ∷ (is_blank env c.http_addr, "GATEWAY_HTTP_ADDR is required")
    ∷ (is_blank env c.api_key, "API_KEY is required")
    ∷ (is_blank env c.internal_token, "INTERNAL_SERVICE_TOKEN is required")
    ∷ (is_non_positive c.max_body_bytes, "MAX_REQUEST_BODY_BYTES must be greater than zero")
    ∷ (
      is_non_positive c.rate_limit_requests,
      "GATEWAY_RATE_LIMIT_REQUESTS must be greater than zero",
    )
    ∷ (is_non_positive c.rate_limit_window, "GATEWAY_RATE_LIMIT_WINDOW must be greater than zero")
    ∷ (not (is_http_url env c.payment_service_url), "PAYMENT_SERVICE_URL must be a valid http URL")
    ∷ (not (is_http_url env c.ledger_service_url), "LEDGER_SERVICE_URL must be a valid http URL")
    ∷ []

-- `Validate`
unfoldable pub validate_gateway : Environment → GatewayConfig → Result (Unit {0})
unfolding problems_of verdict is_http_url
validate_gateway env c = verdict (problems_of (gateway_checks env c))
