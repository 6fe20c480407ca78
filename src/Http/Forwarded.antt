-- ===== src/Http/Forwarded.antt =====
-- Reading a header of the request that the reverse proxy sends.
use finflow.Base.{
  ◌≡◌, refl, ◌∙◌, String, false, Option, none, some, List, [], ◌∷◌, any, str_eq, eq_iff,
  if◌then◌else◌, arith,
}
use finflow.Go.Environment.{Environment}
use finflow.Go.Net.{split_host}
use finflow.Http.{Headers, Request, get, set, del}
use finflow.Http.Fields.{get-del, get-set}
use finflow.Http.ReverseProxy.{
  values, del_all, hop_headers, add_forwarded_for, is_named, connection_names, remove_hop_by_hop,
  sent_request,
}

pub values-del :
    (name k : String) (headers : Headers)
    → values name (del k headers) ≡ (if str_eq k name then [] else values name headers)
unfolding values del
values-del name k [] = ground arith
values-del name k ((j, v) ∷ headers) =
    ground (arith, eq_iff j k, eq_iff j name, eq_iff k name, values-del name k headers)

pub values-set :
    (name k v : String) (headers : Headers)
    → values name (set k v headers) ≡ (if str_eq k name then v ∷ [] else values name headers)
unfolding values set
values-set name k v headers = ground (arith, values-del name k headers)

get-del_all :
    (name : String) (names : List String) (headers : Headers)
    → get name (del_all names headers)
      ≡ (if any (λ n. str_eq n name) names then "" else get name headers)
unfolding del_all
get-del_all name [] headers = refl
get-del_all name (n ∷ names) headers =
    ground (arith, get-del_all name names (del n headers), get-del name n headers)

get-add_forwarded_for :
    (name : String) (host : Option String) (headers : Headers)
    → str_eq "X-Forwarded-For" name ≡ false
    → get name (add_forwarded_for host headers) ≡ get name headers
get-add_forwarded_for name none headers other = refl
get-add_forwarded_for name (some host) headers other =
    get-set name "X-Forwarded-For" _ headers ∙ rw other refl

-- Any header but X-Forwarded-For and those of one hop is sent as it was, unless a Connection header names
-- it.
pub get-sent_request :
    (env : Environment) (name : String) (r : Request)
    → str_eq "X-Forwarded-For" name ≡ false
    → any (λ n. str_eq n name) hop_headers ≡ false
    → get name (sent_request env r).headers
      ≡ (if is_named env name r.headers then "" else get name r.headers)
unfolding sent_request remove_hop_by_hop
get-sent_request env name r other lasting =
    get-add_forwarded_for name (split_host r.remote_addr) (remove_hop_by_hop env r.headers) other
    ∙ get-del_all name hop_headers (del_all (connection_names env r.headers) r.headers)
    ∙ rw lasting (get-del_all name (connection_names env r.headers) r.headers)
