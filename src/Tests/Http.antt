-- ===== src/Tests/Http.antt =====
-- The theorems about requests on concrete ones.
use finflow.Base.{
  ◌≡◌, ◌≢◌, eq_iff, refl, String, Bool, true, false, Option, none, some, List, [], ◌∷◌, any,
}
use finflow.Base.Int.{pos}
use finflow.Go.Errors.{is, message}
use finflow.Postgres.{Outcome, success, unacknowledged}
use finflow.Go.Strings.{strip_prefix, trim_space}
use finflow.Go.Json.{object, number, text}
use finflow.Http.{Request, Response, Handler, payload, get, write_request_error}
use finflow.Http.Security.{provided_token, api_key, internal_service_token}
use finflow.Http.Access.{
  HasNoCollision, Guards, padded_secret_refused, internal_service_token-Guards,
}
use finflow.Config.Gateway.{GatewayConfig}
use finflow.Gateway.RateLimit.{Limited, new_limiter}
use finflow.Gateway.Proxy.{Proxy, director}
use finflow.Gateway.Server.{gateway_api}
use finflow.Http.ReverseProxy.{values, sent_request}
use finflow.Gateway.Sent.{sent_headers}
use finflow.Gateway.Upstream.{
  GatewayAnswer, IsLiteral, proxied_payment_unrouted, proxied_request_accepted, gateway_api-Answer,
}
use finflow.Payments.Handler.{payment_patterns, create_payment, update_payment_status}
use finflow.Payments.Handler.Created.{CreateAnswer, create_payment-Answer}
use finflow.Payments.Handler.Updated.{UpdateAnswer, update_payment_status-Answer}
use finflow.Payments.Repository.{postgres_payments}
use finflow.Tests.Inputs.{ascii, world, empty_payments, keyed_payments, lossy}

abbrev asked : Request
asked = record {
  method = "POST";
  host = "gateway";
  path = "/api/v1/payments";
  headers =
      ("X-API-Key", "key")
      ∷ ("X-Internal-Service-Token", "forged")
      ∷ ("Idempotency-Key", "k1")
      ∷ [];
  remote_addr = "10.0.0.7:4000";
  url_param = λ name. "";
  request_id = "r1";
  body = record {
    document = object (("amount_cents", number (pos 1250)) ∷ ("currency", text "USD") ∷ []);
    length = 40;
  };
  body_limit = none;
}

abbrev proxy : Proxy
proxy = record {
  target_host = "payment-service:8080";
  target_path = "";
  strip_prefix = "/api/v1";
  internal_token = "token";
}

abbrev settings : GatewayConfig
settings = record {
  app_env = "local";
  http_addr = ":8088";
  api_key = "key";
  internal_token = "token";
  max_body_bytes = pos 100;
  payment_service_url = "http://payment-service:8080";
  ledger_service_url = "http://ledger-service:8081";
  rate_limit_requests = pos 2;
  rate_limit_window = pos 60;
}

no_collision : HasNoCollision ascii
no_collision s t h = h

abbrev echo : Handler (List String) String
echo headers r seen =
    (record { status = 200; headers = headers; body = payload r.path }, r.path ∷ seen)

abbrev upstream : Request → List String → Option (Response String) × List String
upstream r seen =
    (some (record { status = 200; headers = []; body = payload r.path }), r.path ∷ seen)

abbrev calm : Limited (List String)
calm = record { limiter = new_limiter (pos 2) 60; now = 5; rest = [] }

-- A client that has its idempotency key dropped.
abbrev dropping : Request
dropping = record asked { headers = ("Connection", "Idempotency-Key") ∷ asked.headers }

-- The client's key is gone and the forged token replaced.
sent_headers_example :
    let sent = (sent_request ascii (director proxy dropping)).headers in
    (get "X-API-Key" sent ≡ "")
    × (get "Authorization" sent ≡ "")
    × (get "X-Internal-Service-Token" sent ≡ "token")
    × (get "X-Forwarded-Host" sent ≡ "gateway")
    × (get "Idempotency-Key" sent ≡ "")
unfolding values
sent_headers_example = sent_headers ascii proxy dropping

gateway_api-Answer_example :
    let (answer, s') = gateway_api ascii settings proxy upstream [] asked calm in
    GatewayAnswer ascii settings proxy upstream asked calm answer s'
gateway_api-Answer_example =
    gateway_api-Answer ascii settings proxy upstream [] asked calm no_collision

-- A stand-in for chi's patterns that looks at the fixed beginning.
abbrev fits : Option String → Bool
fits none = false
fits (some rest) = true

fits-some : (o : Option String) → fits o ≡ true → (rest : String) × (o ≡ some rest)
fits-some none h = cc
fits-some (some rest) h = (rest, refl)

abbrev matches : String → String → Bool
matches pattern path = fits (strip_prefix "/api/v1/" path)

matches-IsLiteral : IsLiteral matches
matches-IsLiteral tail path h = fits-some (strip_prefix "/api/v1/" path) h

proxied_payment_unrouted_example :
    any (λ pattern. matches pattern (director proxy asked).path) payment_patterns ≡ false
proxied_payment_unrouted_example =
    proxied_payment_unrouted matches proxy asked "" matches-IsLiteral refl refl refl

-- What the payment service receives for it.
abbrev received : Request
received = sent_request ascii (director proxy asked)

proxied_request_accepted_example :
    internal_service_token ascii "token" echo [] received [] ≡ echo [] received []
unfolding trim_space values
proxied_request_accepted_example =
    proxied_request_accepted ascii proxy echo [] asked received [] refl refl refl refl

padded : trim_space ascii "key " ≢ "key "
unfolding trim_space
padded h = let e = (eq_iff (trim_space ascii "key ") "key ").1 h in cc

padded_secret_refused_example :
    (api_key ascii "key " echo [] asked [] ≡ (write_request_error [] asked 401 "unauthorized", []))
    × (internal_service_token ascii "key " echo [] asked []
        ≡ (write_request_error [] asked 401 "unauthorized", []))
padded_secret_refused_example =
    padded_secret_refused ascii no_collision "key " echo [] asked [] padded

internal_service_token-Guards_example :
    Guards "token"
      (provided_token ascii asked)
      (internal_service_token ascii "token" echo [] asked [])
      (echo [] asked [])
      (write_request_error [] asked 401 "unauthorized", [])
internal_service_token-Guards_example =
    internal_service_token-Guards ascii no_collision "token" echo [] asked []

create_payment-Answer_example :
    let (answer, w') =
      create_payment ascii (postgres_payments ascii) [] asked (world empty_payments lossy) in
    CreateAnswer ascii answer empty_payments w'.db
unfolding is
create_payment-Answer_example =
    create_payment-Answer ascii [] asked (world empty_payments lossy) (refl, (refl, tt))

abbrev decision : Request
decision = record asked {
  method = "PATCH";
  url_param = λ name. "p0";
  body = record { document = object (("status", text "failed") ∷ []); length = 20 };
}

-- The commit of the change of status is applied, and its answer lost.
abbrev lost_commit : List Outcome
lost_commit =
    success ∷ success ∷ success ∷ success ∷ unacknowledged (message "connection reset") ∷ []

update_payment_status-Answer_example :
    let (answer, w') =
      update_payment_status ascii
        (postgres_payments ascii)
        []
        decision
        (world keyed_payments lost_commit) in
    UpdateAnswer ascii answer keyed_payments w'.db
unfolding is
update_payment_status-Answer_example =
    update_payment_status-Answer ascii [] decision (world keyed_payments lost_commit)
      (tt, (tt, (tt, (tt, (refl, tt)))))
