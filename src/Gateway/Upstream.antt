-- ===== src/Gateway/Upstream.antt =====
-- What the gateway (cmd/api/main.go, proxy.go) lets through to the services, and what it sends them.
use Prim.Native.String.{◌++◌ as str_append}
use finflow.Base.{
  ◌≡◌, refl, ap, ◌∙◌, ◌⊎◌, inl, inr, String, Bool, true, false, Option, some, any, Bool-cases,
  arith, eq_refl,
}
use finflow.Go.Environment.{Environment}
use finflow.Go.Strings.{
  is_empty, trim_space, trim_right, strip_prefix, strip_suffix, prepend, append-prepend,
}
use finflow.Http.{Headers, Request, Response, Handler, get, set, write_json}
use finflow.Http.ReverseProxy.{is_named, sent_request}
use finflow.Http.Security.{
  api_key_from_request, provided_token, is_refused, internal_service_token, max_body_bytes,
}
use finflow.Http.Access.{HasNoCollision, api_key-Guards}
use finflow.Config.Gateway.{GatewayConfig}
use finflow.Gateway.RateLimit.{Limited, client_key, allow, middleware}
use finflow.Gateway.Proxy.{Proxy, single_joining_slash, rewrite_path, director, serve_proxy}
use finflow.Gateway.Sent.{sent_headers}
use finflow.Gateway.Server.{gateway_api}
use finflow.Payments.Handler.{payment_patterns}

proxied_path :
    (p : Proxy) (r : Request) (rest : String)
    → p.target_path ≡ ""
    → p.strip_prefix ≡ "/api/v1"
    → r.path ≡ str_append "/api/v1/payments" rest
    → (director p r).path ≡ prepend "/payments" rest
unfolding director single_joining_slash rewrite_path strip_prefix strip_suffix trim_right
proxied_path p r rest no_path stripped asked =
    rw (no_path, stripped, asked, append-prepend "/api/v1/payments" rest)
      (rw (append-prepend "" (prepend "/api/v1/payments" rest)) refl)

-- chi lets a pattern match only paths that begin with its text.
abbrev pub IsLiteral : (String → String → Bool) → Type 0
IsLiteral matches =
    (tail path : String)
    → matches (str_append "/api/v1/" tail) path ≡ true
    → (after : String) × (strip_prefix "/api/v1/" path ≡ some after)

unmatched :
    (matches : String → String → Bool) (tail rest : String)
    → IsLiteral matches
    → matches (str_append "/api/v1/" tail) (prepend "/payments" rest) ≡ false
unfolding strip_prefix
unmatched matches tail rest literal =
    elim (Bool-cases (matches (str_append "/api/v1/" tail) (prepend "/payments" rest))) [
      | inl hit ↦ let (after, e) = literal tail (prepend "/payments" rest) hit in cc
      | inr miss ↦ miss
    ]

-- The path that the payment proxy sends for a request below /api/v1/payments, where the target URL
-- has no path, fits none of the payment service's routes, if a route fits only paths that begin as
-- its pattern.
pub proxied_payment_unrouted :
    (matches : String → String → Bool) (p : Proxy) (r : Request) (rest : String)
    → IsLiteral matches
    → p.target_path ≡ ""
    → p.strip_prefix ≡ "/api/v1"
    → r.path ≡ str_append "/api/v1/payments" rest
    → any (λ pattern. matches pattern (director p r).path) payment_patterns ≡ false
proxied_payment_unrouted matches p r rest literal no_path stripped asked =
    rw (proxied_path p r rest no_path stripped asked) (
      rw
        (
          unmatched matches "payments" rest literal,
          unmatched matches "payments/{id}" rest literal,
          unmatched matches "payments/{id}/status" rest literal,
        )
        refl)

-- A service that holds the gateway's token, which is not empty and has no spaces around it, lets
-- every request through that carries the headers that the gateway sends, whatever headers the
-- client sent, unless its Connection header names the token's.
pub proxied_request_accepted :
    {W P : Type 0} (env : Environment) (p : Proxy) (next : Handler W P) (headers : Headers)
    (r received : Request) (w : W)
    → trim_space env p.internal_token ≡ p.internal_token
    → is_empty p.internal_token ≡ false
    → is_named env "X-Internal-Service-Token" r.headers ≡ false
    → received.headers ≡ (sent_request env (director p r)).headers
    → internal_service_token env p.internal_token next headers received w ≡ next headers received w
unfolding internal_service_token is_refused
proxied_request_accepted env p next headers r received w trimmed given kept sent =
    let token : provided_token env received ≡ p.internal_token =
      ap (λ h. trim_space env (get "X-Internal-Service-Token" h)) sent
      ∙ ap (trim_space env) (sent_headers env p r).2
      ∙ rw kept trimmed in
    rw (token, given) (ground (arith, eq_refl (env.sha256_hex p.internal_token)))

-- The state after a call of the limiter, with what the handlers after it left.
abbrev pub after_limiter : {U : Type 0} → Request → Limited U → U → Limited U
after_limiter r s rest = record s {
  limiter = (allow s.limiter (client_key r) s.now).1;
  rest = rest;
}

abbrev pub passes : {U : Type 0} → Request → Limited U → Bool
passes r s = (allow s.limiter (client_key r) s.now).0

-- Over the limit, the next handler is not called.
middleware_cases :
    {U P : Type 0} (next : Handler U P) (headers : Headers) (r : Request) (s : Limited U)
    → let (answer, s') = middleware next headers r s in
      ((passes r s ≡ false) × (answer.status ≡ 429) × (s' ≡ after_limiter r s s.rest))
      ⊎ ((passes r s ≡ true) × (s' ≡ after_limiter r s (next headers r s.rest).1))
unfolding middleware write_json
middleware_cases next headers r s = elim (Bool-cases (passes r s)) [
  | inl under ↦ inr (under, rw under refl)
  | inr over ↦ inl (over, rw over refl, rw over refl)
]

abbrev pub HasKey : Environment → GatewayConfig → Request → Type 0
HasKey env c r =
    (is_empty (api_key_from_request env r) ≡ false) × (api_key_from_request env r ≡ c.api_key)

-- Refused without the key; limited; or sent to the service once, whose state is then the service's.
abbrev pub GatewayAnswer :
    {U P : Type 0}
    → Environment
    → GatewayConfig
    → Proxy
    → (Request → U → Option (Response P) × U)
    → Request
    → Limited U
    → Response P
    → Limited U
    → Type 0
GatewayAnswer env c p upstream r s answer s' =
    (¬ HasKey env c r × (answer.status ≡ 401) × (s' ≡ s))
    ⊎ (HasKey env c r
        × (((passes r s ≡ false) × (answer.status ≡ 429) × (s' ≡ after_limiter r s s.rest))
            ⊎ ((passes r s ≡ true)
                × (s'
                    ≡ after_limiter r s
                        (upstream
                          (sent_request env
                            (director p (record r { body_limit = some c.max_body_bytes })))
                          s.rest).1))))

-- Where SHA-256 has no collision, the gateway answers a request without the API key by 401 and
-- changes nothing; with the key it counts the request, and over the limit answers 429 without
-- calling the service, or calls the service once with the request that the reverse proxy makes of
-- the director's.
pub gateway_api-Answer :
    {U P : Type 0} (env : Environment) (c : GatewayConfig) (p : Proxy)
    (upstream : Request → U → Option (Response P) × U) (headers : Headers) (r : Request)
    (s : Limited U)
    → HasNoCollision env
    → let (answer, s') = gateway_api env c p upstream headers r s in
      GatewayAnswer env c p upstream r s answer s'
unfolding gateway_api write_json
gateway_api-Answer {U} {P} env c p upstream headers r s no_collision =
    let proxied : Handler U P = max_body_bytes c.max_body_bytes (serve_proxy env p upstream) in
    let set_headers = set "Cache-Control" "no-store" (
      set "Referrer-Policy" "no-referrer"
        (set "X-Frame-Options" "DENY" (set "X-Content-Type-Options" "nosniff" headers))) in
    elim (api_key-Guards env no_collision c.api_key (middleware proxied) set_headers r s) [
      | inr (other, refused) ↦ rw refused (inl (other, refl, refl))
      | inl (full, same, ran) ↦ rw ran (elim (middleware_cases proxied set_headers r s) [
        | inl limited ↦ inr ((full, same), inl limited)
        | inr sent ↦ inr ((full, same), inr sent)
      ])
    ]
