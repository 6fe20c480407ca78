-- ===== src/Gateway/Proxy.antt =====
-- services/gateway-service/internal/proxy/proxy.go: `New` with its director and error handler, and
-- `rewritePath`. The upstream service is a parameter, which gives no answer where the call fails;
-- the reverse proxy of net/http/httputil joins the target's path and the request's, and copies the
-- answer's headers. Http/ReverseProxy says what it does to the
-- headers after the director.
use Prim.Native.Char.{code}
use Prim.Native.String.{◌++◌ as str_append}
use finflow.Base.{String, Bool, true, false, not, ◌==◌, Option, none, some, ◌++◌, if◌then◌else◌}
use finflow.Go.Environment.{Environment}
use finflow.Go.Errors.{message, wrap, Result, ok, err}
use finflow.Go.Strings.{is_empty, trim_right, trim_prefix, strip_prefix, strip_suffix}
use finflow.Http.ReverseProxy.{remove_hop_by_hop, sent_request}
use finflow.Http.{Headers, Request, Response, Handler, failure, del, set, write_json}

pub record Proxy : Type 0 where
  pub target_host : String
  pub target_path : String
  pub strip_prefix : String
  pub internal_token : String

-- `strings.TrimRight(s, "/")`
abbrev pub trim_slashes : String → String
trim_slashes s = trim_right (λ c. code c == b'/') s

abbrev pub proxy_of : String → String → String → Option (String × String) → Result Proxy
proxy_of path prefix token none = err (wrap "parse proxy target" (message "parse"))
proxy_of path prefix token (some (scheme, host)) = ok (record {
  target_host = host;
  target_path = path;
  strip_prefix = prefix;
  internal_token = token;
})

-- `New`, up to the construction of the reverse proxy.
unfoldable pub new_proxy : Environment → String → String → String → Result Proxy
unfolding trim_right
new_proxy env target prefix token =
    let url = trim_slashes target in proxy_of (env.url_path url) prefix token (env.parse_url url)

abbrev pub begins_with_slash : String → Bool
begins_with_slash String.[] = false
begins_with_slash (String.◌∷◌ c s) = code c == b'/'

abbrev pub ends_with_slash : String → Bool
ends_with_slash s = elim (strip_suffix "/" s) [ none ↦ false | some front ↦ true ]

-- `singleJoiningSlash` of net/http/httputil.
unfoldable pub single_joining_slash : String → String → String
unfolding strip_prefix strip_suffix
single_joining_slash a b =
    if ends_with_slash a
    then (if begins_with_slash b then str_append a (trim_prefix "/" b) else str_append a b)
    else (if begins_with_slash b then str_append a b else str_append a (str_append "/" b))

abbrev pub rooted : String → String
rooted path =
    if is_empty path
    then "/"
    else if not (begins_with_slash path)
    then str_append "/" path
    else path

-- `rewritePath`
unfoldable pub rewrite_path : String → String → String
unfolding trim_right strip_prefix
rewrite_path path prefix_text =
    let prefix = trim_slashes prefix_text in
    if is_empty prefix then path else rooted (trim_prefix prefix path)

-- `proxy.Director`
unfoldable pub director : Proxy → Request → Request
unfolding single_joining_slash rewrite_path del set
director p r = record r {
  path = rewrite_path (single_joining_slash p.target_path r.path) p.strip_prefix;
  host = p.target_host;
  headers = set "X-Internal-Service-Token" p.internal_token (
      del "Authorization" (
        del "X-API-Key"
          (set "X-Gateway" "finflow-gateway" (set "X-Forwarded-Host" r.host r.headers))));
}

-- The upstream's answer, or the answer of `proxy.ErrorHandler`.
abbrev pub answered : {P : Type 0} → Environment → Headers → Option (Response P) → Response P
answered env headers none = write_json headers 502 (failure "upstream unavailable" "")
answered env headers (some answer) = record answer {
  headers = headers ++ remove_hop_by_hop env answer.headers;
}

-- The handler of the reverse proxy.
unfoldable pub serve_proxy :
    {U P : Type 0} → Environment → Proxy → (Request → U → Option (Response P) × U) → Handler U P
unfolding director sent_request remove_hop_by_hop
serve_proxy env p upstream headers r u =
    let (answer, u') = upstream (sent_request env (director p r)) u in
    (answered env headers answer, u')
