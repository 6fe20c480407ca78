-- ===== src/Gateway/Sent.antt =====
-- The headers of the requests that the gateway (proxy.go, over the reverse proxy of net/http/httputil)
-- sends to the services.
use finflow.Base.{◌≡◌, refl, ap, ◌∙◌, String, Bool, true, false, if◌then◌else◌}
use finflow.Go.Environment.{Environment}
use finflow.Http.{Request, get}
use finflow.Http.Fields.{get-del, get-set}
use finflow.Http.ReverseProxy.{all_names, is_named, connection_names, sent_request}
use finflow.Http.Forwarded.{values-del, values-set, get-sent_request}
use finflow.Gateway.Proxy.{Proxy, director}

-- What the director leaves.
director_headers :
    (p : Proxy) (r : Request)
    → let left = (director p r).headers in
      (get "X-API-Key" left ≡ "")
      × (get "Authorization" left ≡ "")
      × (get "X-Internal-Service-Token" left ≡ p.internal_token)
      × (get "X-Forwarded-Host" left ≡ r.host)
      × (get "Idempotency-Key" left ≡ get "Idempotency-Key" r.headers)
unfolding director
director_headers p r = (
  simp (get-set, get-del),
  simp (get-set, get-del),
  simp (get-set, get-del),
  simp (get-set, get-del),
  simp (get-set, get-del),
)

connection_names-director :
    (env : Environment) (p : Proxy) (r : Request)
    → connection_names env (director p r).headers ≡ connection_names env r.headers
unfolding director
connection_names-director env p r = ap (all_names env) (simp (values-set, values-del))

empty_either : (b : Bool) {s : String} → s ≡ "" → (if b then "" else s) ≡ ""
empty_either true h = refl
empty_either false h = h

-- A request that the gateway sends on carries neither the client's API key nor its Authorization.
-- It carries the gateway's own internal token, whatever the client sent under its name, the
-- client's host as X-Forwarded-Host and the client's idempotency key, except that each of the three
-- whose header the client's Connection header names reads as empty.
pub sent_headers :
    (env : Environment) (p : Proxy) (r : Request)
    → let sent = (sent_request env (director p r)).headers in
      (get "X-API-Key" sent ≡ "")
      × (get "Authorization" sent ≡ "")
      × (get "X-Internal-Service-Token" sent
          ≡ (if is_named env "X-Internal-Service-Token" r.headers then "" else p.internal_token))
      × (get "X-Forwarded-Host" sent
          ≡ (if is_named env "X-Forwarded-Host" r.headers then "" else r.host))
      × (get "Idempotency-Key" sent ≡ (
          if is_named env "Idempotency-Key" r.headers then "" else get "Idempotency-Key" r.headers))
sent_headers env p r =
    let d = director p r in
    let (key, auth, token, host, idem) = director_headers p r in
    let same = connection_names-director env p r in
    (
      get-sent_request env "X-API-Key" d refl refl
          ∙ empty_either (is_named env "X-API-Key" d.headers) key,
      get-sent_request env "Authorization" d refl refl
          ∙ empty_either (is_named env "Authorization" d.headers) auth,
      rw (← same) (rw token at (get-sent_request env "X-Internal-Service-Token" d refl refl)),
      rw (← same) (rw host at (get-sent_request env "X-Forwarded-Host" d refl refl)),
      rw (← same) (rw idem at (get-sent_request env "Idempotency-Key" d refl refl)),
    )
