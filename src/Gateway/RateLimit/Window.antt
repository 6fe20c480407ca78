-- ===== src/Gateway/RateLimit/Window.antt =====
-- How many calls of a client the limiter lets through in one window.
use finflow.Base.{
  ℕ, ◌+◌, ◌-◌, ◌<◌, ◌≡◌, refl, ap, ◌∙◌, String, true, ◌&&◌, some, List, [], ◌∷◌, leb, All, count_if,
  arith, str_eq, eq_iff, eq_refl, if◌then◌else◌, inl, inr, Bool-cases,
}
use finflow.Base.Int.{pos}
use finflow.Gateway.RateLimit.{
  Bucket, Limiter, bucket_of, set_bucket, is_over, current_bucket, counted, allow,
}

-- A call: the client's key and the time.
abbrev pub Call : Type 0
Call = String × ℕ

-- How many of the calls are of the client and are let through.
abbrev pub allowed : String → List Call → Limiter → ℕ
allowed key [] l = 0
allowed key ((k, now) ∷ calls) l =
    let (passes, l') = allow l k now in
    (if str_eq k key && passes then 1 else 0) + allowed key calls l'

abbrev pub calls_of : String → List Call → ℕ
calls_of key calls = count_if (λ c. str_eq c.0 key) calls

abbrev pub min : ℕ → ℕ → ℕ
min a b = if leb a b then a else b

bucket_of-set_bucket :
    (key k : String) (b : Bucket) (requests : List (String × Bucket))
    → bucket_of key (set_bucket k b requests) ≡ (if str_eq k key then b else bucket_of key requests)
unfolding bucket_of set_bucket
bucket_of-set_bucket key k b [] = refl
bucket_of-set_bucket key k b ((j, old) ∷ requests) =
    ground (arith, eq_iff j k, eq_iff j key, eq_iff k key, bucket_of-set_bucket key k b requests)

bucket_of-allow :
    (l : Limiter) (key k : String) (now : ℕ)
    → bucket_of key (allow l k now).1.requests ≡ (
        if str_eq k key
        then counted (current_bucket l.window (bucket_of k l.requests) now) now
        else bucket_of key l.requests)
unfolding allow
bucket_of-allow l key k now =
    bucket_of-set_bucket key k (counted (current_bucket l.window (bucket_of k l.requests) now) now)
      l.requests

min-suc : (c n m : ℕ) → (if leb (c + 1) n then 1 else 0) + min (n - (c + 1)) m ≡ min (n - c) (1 + m)
min-suc c n m = ground arith

min-zero : (c m : ℕ) {a : ℕ} → a ≡ min c m → 0 + a ≡ min c (0 + m)
min-zero c m h = ground arith

min-sub_zero : (n m : ℕ) {a : ℕ} → a ≡ min (n - 0) m → a ≡ min n m
min-sub_zero n m h = ground arith

-- A call in an open window: the window stays, and the client's count goes up.
allow-within :
    (l : Limiter) (key : String) (now n closes : ℕ)
    → l.limit ≡ pos n
    → (bucket_of key l.requests).window_end ≡ some closes
    → now < closes
    → ((allow l key now).0 ≡ leb ((bucket_of key l.requests).count + 1) n)
      × (bucket_of key (allow l key now).1.requests ≡ counted (bucket_of key l.requests) now)
allow-within l key now n closes limit ends early =
    (passes, rw (bucket_of-allow l key key now, eq_refl key, still))
  where
    still : current_bucket l.window (bucket_of key l.requests) now ≡ bucket_of key l.requests
    still = ground arith

    passes : (allow l key now).0 ≡ leb ((bucket_of key l.requests).count + 1) n
    passes = unfold allow in rw (still, limit)

same_limit :
    (l : Limiter) (key : String) (now n : ℕ) → l.limit ≡ pos n → (allow l key now).1.limit ≡ pos n
unfolding allow
same_limit l key now n limit = limit

-- In an open window, what is left of the limit is let through.
allowed-within :
    (key : String) (calls : List Call) (l : Limiter) (n closes : ℕ)
    → l.limit ≡ pos n
    → (bucket_of key l.requests).window_end ≡ some closes
    → All (λ c. c.1 < closes) calls
    → allowed key calls l ≡ min (n - (bucket_of key l.requests).count) (calls_of key calls)
allowed-within key [] l n closes limit ends early = ground arith
allowed-within key ((k, now) ∷ calls) l n closes limit ends early =
    let l' : Limiter = (allow l k now).1 in
    let rest = λ (ends' : (bucket_of key l'.requests).window_end ≡ some closes).
      allowed-within key calls l' n closes (same_limit l k now n limit) ends' early.1 in
    elim (Bool-cases (str_eq k key)) [
      | inl same ↦
          let e = (eq_iff k key).0 same in
          let within = allow-within l key now n closes limit ends early.0 in
          let counts : bucket_of key l'.requests ≡ counted (bucket_of key l.requests) now =
            ap (λ j. bucket_of key (allow l j now).1.requests) e ∙ within.1 in
          let passes : (allow l k now).0 ≡ leb ((bucket_of key l.requests).count + 1) n =
            ap (λ j. (allow l j now).0) e ∙ within.0 in
          let left = rest (ap (λ (b : Bucket). b.window_end) counts ∙ ends) in
          let left' = rw counts at left in
          rw (same, passes, left') (min-suc (bucket_of key l.requests).count n (calls_of key calls))
      | inr other ↦
          let kept : bucket_of key l'.requests ≡ bucket_of key l.requests =
            rw (bucket_of-allow l key k now, other) in
          let left = rest (ap (λ (b : Bucket). b.window_end) kept ∙ ends) in
          rw other
            (min-zero (n - (bucket_of key l.requests).count) (calls_of key calls) (rw kept at left))
    ]

-- When a client calls after its window has ended, or for the first time, then of this call and of
-- its calls before the end of the new window, whatever the other clients do between, exactly the
-- limit are let through, or all of them where they are fewer.
pub allowed_window :
    (key : String) (now : ℕ) (calls : List Call) (l : Limiter) (n : ℕ)
    → l.limit ≡ pos n
    → is_over (bucket_of key l.requests) now ≡ true
    → All (λ c. c.1 < now + l.window) calls
    → allowed key ((key, now) ∷ calls) l ≡ min n (calls_of key ((key, now) ∷ calls))
allowed_window key now calls l n limit over early =
    let l' : Limiter = (allow l key now).1 in
    let opened : bucket_of key l'.requests
        ≡ record { count = 1; window_end = some (now + l.window); last_seen_at = some now } =
      rw (bucket_of-allow l key key now, eq_refl key, over) in
    let rest =
      allowed-within key calls l' n (now + l.window) (same_limit l key now n limit)
        (ap (λ (b : Bucket). b.window_end) opened) early in
    let rest' = rw opened at rest in
    let passes : (allow l key now).0 ≡ leb (0 + 1) n = unfold allow in rw (over, limit) in
    rw (eq_refl key, passes, rest')
      (min-sub_zero n (1 + calls_of key calls) (min-suc 0 n (calls_of key calls)))
