-- ===== src/Http/Access.antt =====
-- Which requests the key and token checks of internal/security let through.
use Prim.Native.Char.{Char}
use finflow.Base.{
  ◌≡◌, ◌≢◌, refl, ap, String, Bool, true, false, ◌&&◌, ◌⊎◌, inl, inr, Bool-cases, Option, none,
  some, arith, str_eq, eq_iff,
}
use finflow.Go.Environment.{Environment}
use finflow.Go.Strings.{strip_prefix, is_empty, trim_left, trim_right, trim_space}
use finflow.Http.{Headers, Request, Response, Handler, get, write_request_error}
use finflow.Http.Security.{
  is_refused, bearer_token, api_key_from_request, api_key, provided_token, internal_service_token,
}

-- SHA-256 gives different texts different sums.
abbrev pub HasNoCollision : Environment → Type 0
HasNoCollision env = (s t : String) → env.sha256_hex s ≡ env.sha256_hex t → s ≡ t

module _ (p : Char → Bool) where
  trim_right-idempotent : (s : String) → trim_right p (trim_right p s) ≡ trim_right p s
  unfolding trim_right
  trim_right-idempotent String.[] = refl
  trim_right-idempotent (String.◌∷◌ c s) = elim (Bool-cases (p c && is_empty (trim_right p s))) [
    | inl blank ↦ rw blank refl
    | inr kept ↦ rw (kept, trim_right-idempotent s, kept) refl
  ]

  trim_left-after :
      (s : String) → trim_left p (trim_right p (trim_left p s)) ≡ trim_right p (trim_left p s)
  unfolding trim_left trim_right
  trim_left-after String.[] = refl
  trim_left-after (String.◌∷◌ c s) = elim (Bool-cases (p c)) [
    | inl blank ↦ rw blank (trim_left-after s)
    | inr kept ↦ rw kept (ground arith)
  ]

pub trim_space-idempotent :
    (env : Environment) (s : String) → trim_space env (trim_space env s) ≡ trim_space env s
unfolding trim_space
trim_space-idempotent env s =
    rw (trim_left-after env.is_space s)
      (trim_right-idempotent env.is_space (trim_left env.is_space s))

-- The middleware passes the request on where the two texts agree, and else answers 401 by itself.
abbrev pub Guards :
    {P W : Type 0} → String → String → Response P × W → Response P × W → Response P × W → Type 0
Guards expected provided ran passed refused =
    ((is_empty provided ≡ false) × (provided ≡ expected) × (ran ≡ passed))
    ⊎ (¬ ((is_empty provided ≡ false) × (provided ≡ expected)) × (ran ≡ refused))

module _ (env : Environment) (no_collision : HasNoCollision env) where
  is_refused_cases :
      (expected provided : String)
      → ((is_empty provided ≡ false)
          × (provided ≡ expected)
          × (is_refused env expected provided ≡ false))
        ⊎ (¬ ((is_empty provided ≡ false) × (provided ≡ expected))
            × (is_refused env expected provided ≡ true))
  unfolding is_refused
  is_refused_cases expected provided = elim (Bool-cases (is_empty provided)) [
    | inl empty ↦ inr (λ h. cc, rw empty refl)
    | inr full ↦ elim (Bool-cases (str_eq (env.sha256_hex provided) (env.sha256_hex expected))) [
      | inl same ↦
          inl (full, no_collision provided expected ((eq_iff _ _).0 same), rw (full, same) refl)
      | inr differs ↦ inr (
        λ h. absurd (
            ground (
              arith,
              ap env.sha256_hex h.1,
              eq_iff (env.sha256_hex provided) (env.sha256_hex expected),
            )),
        rw (full, differs) refl,
      )
    ]
  ]

  -- Where SHA-256 has no collision, InternalServiceToken calls the next handler exactly where the
  -- header without the spaces around it is not empty and is the configured token, and else answers
  -- 401 and changes nothing.
  pub internal_service_token-Guards :
      {P W : Type 0} (expected : String) (next : Handler W P) (headers : Headers) (r : Request)
      (w : W)
      → Guards expected
          (provided_token env r)
          (internal_service_token env expected next headers r w)
          (next headers r w)
          (write_request_error headers r 401 "unauthorized", w)
  unfolding internal_service_token
  internal_service_token-Guards expected next headers r w =
      elim (is_refused_cases expected (provided_token env r)) [
        | inl (full, same, passes) ↦ inl (full, same, rw passes refl)
        | inr (other, refused) ↦ inr (other, rw refused refl)
      ]

  pub api_key-Guards :
      {P W : Type 0} (expected : String) (next : Handler W P) (headers : Headers) (r : Request)
      (w : W)
      → Guards expected
          (api_key_from_request env r)
          (api_key env expected next headers r w)
          (next headers r w)
          (write_request_error headers r 401 "unauthorized", w)
  unfolding api_key
  api_key-Guards expected next headers r w =
      elim (is_refused_cases expected (api_key_from_request env r)) [
        | inl (full, same, passes) ↦ inl (full, same, rw passes refl)
        | inr (other, refused) ↦ inr (other, rw refused refl)
      ]

  -- What the checks compare has no spaces around it, so that a secret with such spaces fits nothing.
  bearer_token-trimmed :
      (rest : Option String) → trim_space env (bearer_token env rest) ≡ bearer_token env rest
  unfolding trim_space trim_left trim_right
  bearer_token-trimmed none = refl
  bearer_token-trimmed (some rest) = trim_space-idempotent env rest

  api_key-trimmed :
      (r : Request) → trim_space env (api_key_from_request env r) ≡ api_key_from_request env r
  unfolding api_key_from_request
  api_key-trimmed r = elim (Bool-cases (is_empty (trim_space env (get "X-API-Key" r.headers)))) [
    | inl absent ↦ rw absent (
        bearer_token-trimmed
          (strip_prefix "Bearer " (trim_space env (get "Authorization" r.headers))))
    | inr given ↦ rw given (trim_space-idempotent env (get "X-API-Key" r.headers))
  ]

  Guards-padded :
      {P W : Type 0} (secret provided : String) {ran passed refused : Response P × W}
      → trim_space env secret ≢ secret
      → trim_space env provided ≡ provided
      → Guards secret provided ran passed refused
      → ran ≡ refused
  Guards-padded secret provided padded trimmed (inl (full, same, passes)) =
      absurd (padded (rw same at trimmed))
  Guards-padded secret provided padded trimmed (inr (other, refused)) = refused

  -- Where SHA-256 has no collision, a configured API key or internal token with spaces around it
  -- refuses every request by 401.
  pub padded_secret_refused :
      {P W : Type 0} (secret : String) (next : Handler W P) (headers : Headers) (r : Request)
      (w : W)
      → trim_space env secret ≢ secret
      → (api_key env secret next headers r w
          ≡ (write_request_error headers r 401 "unauthorized", w))
        × (internal_service_token env secret next headers r w
            ≡ (write_request_error headers r 401 "unauthorized", w))
  padded_secret_refused secret next headers r w padded = (
    Guards-padded secret (api_key_from_request env r) padded (api_key-trimmed r)
        (api_key-Guards secret next headers r w),
    Guards-padded secret (provided_token env r) padded
        (trim_space-idempotent env (get "X-Internal-Service-Token" r.headers))
        (internal_service_token-Guards secret next headers r w),
  )
