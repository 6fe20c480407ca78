-- ===== src/Http/Security.antt =====
-- The three services' internal/security (middleware.go, and headers.go of the ledger service): a
-- middleware takes the handler after it. SHA-256 is the environment's, in hexadecimal digits.
use Prim.Native.String.{String}
use finflow.Base.{Bool, not, ◌||◌, Option, none, some, str_eq, if◌then◌else◌}
use finflow.Base.Int.{ℤ}
use finflow.Go.Environment.{Environment}
use finflow.Go.Strings.{is_empty, trim_space, strip_prefix}
use finflow.Http.{Request, Handler, get, set, write_request_error}

-- `Headers`
unfoldable pub security_headers : {W P : Type 0} → Handler W P → Handler W P
security_headers next headers r w =
    next
      (set "Cache-Control" "no-store" (
        set "Referrer-Policy" "no-referrer"
          (set "X-Frame-Options" "DENY" (set "X-Content-Type-Options" "nosniff" headers))))
      r w

-- `MaxBodyBytes`; a server's request always has a body.
unfoldable pub max_body_bytes : {W P : Type 0} → ℤ → Handler W P → Handler W P
max_body_bytes limit next headers r w = next headers (record r { body_limit = some limit }) w

module _ (env : Environment) where
  -- `providedKey == "" || subtle.ConstantTimeCompare(providedHash[:], expectedHash[:]) != 1`
  unfoldable pub is_refused : String → String → Bool
  is_refused expected provided =
      is_empty provided || not (str_eq (env.sha256_hex provided) (env.sha256_hex expected))

  -- What follows the prefix of a bearer token.
  abbrev pub bearer_token : Option String → String
  bearer_token none = ""
  bearer_token (some rest) = trim_space env rest

  -- `apiKeyFromRequest`
  unfoldable pub api_key_from_request : Request → String
  unfolding get trim_space strip_prefix
  api_key_from_request r =
      let key = trim_space env (get "X-API-Key" r.headers) in
      let auth = trim_space env (get "Authorization" r.headers) in
      if not (is_empty key) then key else bearer_token (strip_prefix "Bearer " auth)

  -- `APIKey`
  unfoldable pub api_key : {W P : Type 0} → String → Handler W P → Handler W P
  unfolding is_refused
  api_key expected next headers r w =
      if is_refused expected (api_key_from_request r)
      then (write_request_error headers r 401 "unauthorized", w)
      else next headers r w

  -- The token that `InternalServiceToken` reads.
  abbrev pub provided_token : Request → String
  provided_token r = trim_space env (get "X-Internal-Service-Token" r.headers)

  -- `InternalServiceToken`
  unfoldable pub internal_service_token : {W P : Type 0} → String → Handler W P → Handler W P
  unfolding is_refused
  internal_service_token expected next headers r w =
      if is_refused expected (provided_token r)
      then (write_request_error headers r 401 "unauthorized", w)
      else next headers r w
