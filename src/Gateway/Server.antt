-- ===== src/Gateway/Server.antt =====
-- services/gateway-service/cmd/api/main.go: the two proxies and the middleware of the API's routes.
use finflow.Base.{Option}
use finflow.Go.Environment.{Environment}
use finflow.Go.Errors.{Result}
use finflow.Http.{Request, Response, Handler}
use finflow.Http.Security.{security_headers, max_body_bytes, api_key}
use finflow.Config.Gateway.{GatewayConfig}
use finflow.Gateway.RateLimit.{Limited, middleware}
use finflow.Gateway.Proxy.{Proxy, new_proxy, serve_proxy}

module _ (env : Environment) (c : GatewayConfig) where
  unfoldable pub payment_proxy : Result Proxy
  payment_proxy = new_proxy env c.payment_service_url "/api/v1" c.internal_token

  unfoldable pub ledger_proxy : Result Proxy
  ledger_proxy = new_proxy env c.ledger_service_url "" c.internal_token

  -- A route below /api/v1.
  unfoldable pub gateway_api :
      {U P : Type 0} → Proxy → (Request → U → Option (Response P) × U) → Handler (Limited U) P
  unfolding security_headers api_key middleware max_body_bytes serve_proxy
  gateway_api proxy upstream = security_headers (
      api_key env c.api_key
        (middleware (max_body_bytes c.max_body_bytes (serve_proxy env proxy upstream))))
