-- ===== src/Http/ReverseProxy.antt =====
-- What the reverse proxy of net/http/httputil does to the headers after the Director, and to those of an
-- answer: `removeHopByHopHeaders` and X-Forwarded-For. What it restores for a change of protocol (Te,
-- Connection, Upgrade) is left out, and so is its empty User-Agent.
use Prim.Native.String.{◌++◌ as str_append}
use finflow.Base.{String, Bool, Option, none, some, List, [], ◌∷◌, ◌++◌, any, str_eq, if◌then◌else◌}
use finflow.Go.Environment.{Environment}
use finflow.Go.Net.{split_host}
use finflow.Go.Strings.{join}
use finflow.Http.{Headers, Request, del, set}

-- `h[name]`: all values.
unfoldable pub values : String → Headers → List String
values name [] = []
values name ((k, v) ∷ headers) =
    let rest = values name headers in if str_eq k name then v ∷ rest else rest

unfoldable pub del_all : List String → Headers → Headers
del_all [] headers = headers
del_all (name ∷ names) headers = del_all names (del name headers)

-- `hopHeaders`
abbrev pub hop_headers : List String
hop_headers =
    "Connection" ∷ "Proxy-Connection" ∷ "Keep-Alive" ∷ "Proxy-Authenticate" ∷ "Proxy-Authorization"
    ∷ "Te" ∷ "Trailer" ∷ "Transfer-Encoding" ∷ "Upgrade" ∷ []

-- With the hosts that the request has come from so far.
abbrev pub forwarded_for : List String → String → String
forwarded_for [] host = host
forwarded_for (prior ∷ priors) host = str_append (join (prior ∷ priors) ", ") (str_append ", " host)

abbrev pub add_forwarded_for : Option String → Headers → Headers
add_forwarded_for none headers = headers
add_forwarded_for (some host) headers =
    set "X-Forwarded-For" (forwarded_for (values "X-Forwarded-For" headers) host) headers

module _ (env : Environment) where
  abbrev pub all_names : List String → List String
  all_names [] = []
  all_names (value ∷ rest) = env.header_names value ++ all_names rest

  -- The names that the headers Connection list.
  abbrev pub connection_names : Headers → List String
  connection_names headers = all_names (values "Connection" headers)

  abbrev pub is_named : String → Headers → Bool
  is_named name headers = any (λ n. str_eq n name) (connection_names headers)

  -- `removeHopByHopHeaders`
  unfoldable pub remove_hop_by_hop : Headers → Headers
  unfolding del_all values
  remove_hop_by_hop headers = del_all hop_headers (del_all (connection_names headers) headers)

  -- The request that is sent for the one that the Director left.
  unfoldable pub sent_request : Request → Request
  unfolding remove_hop_by_hop split_host join values
  sent_request r = record r {
    headers = add_forwarded_for (split_host r.remote_addr) (remove_hop_by_hop r.headers);
  }
