-- ===== src/Gateway/RateLimit.antt =====
-- services/gateway-service/internal/ratelimit/limiter.go. Times are natural numbers of
-- nanoseconds; a count never comes near the bounds of an int.
pub mod Window
use finflow.Base.{
  ℕ, ◌+◌, String, Bool, true, false, not, ◌||◌, Option, none, some, List, [], ◌∷◌, ltb, leb, str_eq,
  if◌then◌else◌,
}
use finflow.Base.Int.{ℤ, pos, negsuc}
use finflow.Go.Net.{split_host}
use finflow.Go.Strings.{is_empty}
use finflow.Http.{Request, Handler, get, write_request_error}

-- The zero time is `none`.
pub record Bucket : Type 0 where
  pub count : ℕ
  pub window_end : Option ℕ
  pub last_seen_at : Option ℕ

pub record Limiter : Type 0 where
  pub limit : ℤ
  pub window : ℕ
  pub requests : List (String × Bucket)

-- `New`
abbrev pub new_limiter : ℤ → ℕ → Limiter
new_limiter limit window = record { limit = limit; window = window; requests = [] }

abbrev pub empty_bucket : Bucket
empty_bucket = record { count = 0; window_end = none; last_seen_at = none }

-- `l.requests[key]`
unfoldable pub bucket_of : String → List (String × Bucket) → Bucket
bucket_of key [] = empty_bucket
bucket_of key ((k, b) ∷ requests) = if str_eq k key then b else bucket_of key requests

-- `l.requests[key] = current`
unfoldable pub set_bucket : String → Bucket → List (String × Bucket) → List (String × Bucket)
set_bucket key b [] = (key, b) ∷ []
set_bucket key b ((k, old) ∷ requests) =
    if str_eq k key then (k, b) ∷ requests else (k, old) ∷ set_bucket key b requests

-- `current.windowEnd.IsZero() || !now.Before(current.windowEnd)`
abbrev pub is_over : Bucket → ℕ → Bool
is_over b now = elim b.window_end [ none ↦ true | some e ↦ not (ltb now e) ]

-- The bucket that the call is counted in.
abbrev pub current_bucket : ℕ → Bucket → ℕ → Bucket
current_bucket window b now =
    if is_over b now
    then record { count = 0; window_end = some (now + window); last_seen_at = none }
    else b

abbrev pub counted : Bucket → ℕ → Bucket
counted b now = record b { count = b.count + 1; last_seen_at = some now }

abbrev pub at_most : ℕ → ℤ → Bool
at_most count (pos n) = leb count n
at_most count (negsuc n) = false

unfoldable pub allow : Limiter → String → ℕ → Bool × Limiter
unfolding bucket_of set_bucket
allow l key now =
    let b = counted (current_bucket l.window (bucket_of key l.requests) now) now in
    (at_most b.count l.limit, record l { requests = set_bucket key b l.requests })

-- The host of the remote address, or all of it.
abbrev pub host_or : String → Option String → String
host_or address none = address
host_or address (some host) = if is_empty host then address else host

-- `clientKey`
unfoldable pub client_key : Request → String
unfolding get split_host
client_key r =
    let forwarded = get "X-Forwarded-For" r.headers in
    if not (is_empty forwarded) then forwarded else host_or r.remote_addr (split_host r.remote_addr)

-- The limiter with the time that `l.now()` answers, over the state of the handlers after it.
pub record Limited (U : Type 0) : Type 0 where
  pub limiter : Limiter
  pub now : ℕ
  pub rest : U

-- `Middleware`
unfoldable pub middleware : {U P : Type 0} → Handler U P → Handler (Limited U) P
unfolding client_key
middleware next headers r s =
    let (passes, l) = allow s.limiter (client_key r) s.now in
    let (answer, rest) = next headers r s.rest in
    if not passes
    then (write_request_error headers r 429 "rate limit exceeded", record s { limiter = l })
    else (answer, record s { limiter = l; rest = rest })
