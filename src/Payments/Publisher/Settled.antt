-- ===== src/Payments/Publisher/Settled.antt =====
-- What a batch whose calls all succeed makes of the outbox of outbox_publisher.go.
use mathlib.Core.Path.{subst}
use finflow.Base.{
  ℕ, zero, suc, ◌≤◌, ◌≡◌, refl, Bool, true, false, ◌||◌, List, [], ◌∷◌, ◌⊎◌, inl, inr, map, select,
  any, update_where, update_where_rule, count_if-update_where-le, arith, str_eq, ◌==◌, ==_iff,
  eq_refl, Bool-cases, All, All-both, All-weaken, if◌then◌else◌,
}
use finflow.Base.Int.{ℤ, pos, negsuc, pos_part, is_non_positive}
use finflow.Payments.Event.{OutboxEvent, OutboxStatus}
use finflow.Payments.Outbox.{claimed_event, published_event}
use finflow.Payments.Publisher.Waiting.{is_waiting, waiting, is_claimed, claim-lt}

-- The outbox once the events are published in turn.
abbrev pub marked : ℕ → List OutboxEvent → List OutboxEvent → List OutboxEvent
marked c [] outbox = outbox
marked c (e ∷ events) outbox =
    marked c events
      (update_where (λ (x : OutboxEvent). str_eq x.id e.id) (published_event c) outbox)

-- The limit of a batch.
abbrev pub limit_of : ℤ → ℕ
limit_of b = if is_non_positive b then 25 else pos_part b

abbrev pub after_batch : ℕ → ℕ → List OutboxEvent → List OutboxEvent
after_batch limit c outbox =
    marked c (map claimed_event (select (is_claimed limit outbox) outbox))
      (update_where (is_claimed limit outbox) claimed_event outbox)

-- An event that waits or is published: no publisher was cut off between its claim and its mark.
abbrev pub IsSettled : OutboxEvent → Type 0
IsSettled e = (is_waiting e ≡ true) ⊎ (e.status ≡ OutboxStatus.published)

-- So it is, or the event is among those still to be marked.
abbrev IsUnderWay : List OutboxEvent → OutboxEvent → Type 0
IsUnderWay events x = IsSettled x ⊎ (any (λ (e : OutboxEvent). str_eq x.id e.id) events ≡ true)

marked-IsSettled :
    (c : ℕ) (events outbox : List OutboxEvent)
    → All (IsUnderWay events) outbox
    → All IsSettled (marked c events outbox)
marked-IsSettled c [] outbox h =
    All-weaken (IsUnderWay []) IsSettled outbox
      (λ x (u : IsUnderWay [] x). elim u [ inl settled ↦ settled | inr none_left ↦ cc ]) h
marked-IsSettled c (e ∷ events) outbox h =
    marked-IsSettled c events
      (update_where (λ (x : OutboxEvent). str_eq x.id e.id) (published_event c) outbox)
      (update_where_rule (IsUnderWay (e ∷ events)) (IsUnderWay events)
        (λ (x : OutboxEvent). str_eq x.id e.id) (published_event c) outbox
        (λ x hit u. inl (inr refl))
        (λ x miss u. elim u [ inl settled ↦ inl settled | inr among ↦ inr (ground arith) ]) h)

-- A claimed event is among those that the claim returns.
abbrev IsAmong : (OutboxEvent → Bool) → List OutboxEvent → OutboxEvent → Type 0
IsAmong p found x =
    p x ≡ true → any (λ (e : OutboxEvent). str_eq x.id e.id) (map claimed_event found) ≡ true

IsAmong-of_select :
    (p : OutboxEvent → Bool) (outbox found : List OutboxEvent)
    → select p outbox ≡ found
    → All (IsAmong p found) outbox
IsAmong-of_select p [] found e = tt
IsAmong-of_select p (x ∷ outbox) found e = elim (Bool-cases (p x)) [
  | inr miss ↦ ((λ h. cc), IsAmong-of_select p outbox found (rw miss at e))
  | inl hit ↦
      let e' : x ∷ select p outbox ≡ found = rw hit at e in
      let first : IsAmong p (x ∷ select p outbox) x = λ h. rw (eq_refl x.id) refl in
      (
        subst (λ l. IsAmong p l x) e' first,
        All-weaken (IsAmong p (select p outbox)) (IsAmong p found) outbox
            (λ k among.
              let more : IsAmong p (x ∷ select p outbox) k = λ h. rw (among h) (or_true _) in
              subst (λ l. IsAmong p l k) e' more)
            (IsAmong-of_select p outbox (select p outbox) refl),
      )
]
  where
    or_true : (b : Bool) → (b || true) ≡ true
    or_true true = refl
    or_true false = refl

pub after_batch-IsSettled :
    (limit c : ℕ) (outbox : List OutboxEvent)
    → All IsSettled outbox
    → All IsSettled (after_batch limit c outbox)
after_batch-IsSettled limit c outbox h =
    let p = is_claimed limit outbox in
    let found = map claimed_event (select p outbox) in
    marked-IsSettled c found (update_where p claimed_event outbox) (
      update_where_rule (λ x. IsSettled x × IsAmong p (select p outbox) x) (IsUnderWay found) p
        claimed_event outbox (λ x hit both. inr (both.1 hit)) (λ x miss both. inl both.0)
        (All-both IsSettled (IsAmong p (select p outbox)) outbox h
          (IsAmong-of_select p outbox (select p outbox) refl)))

waiting-marked :
    (c : ℕ) (events outbox : List OutboxEvent) → waiting (marked c events outbox) ≤ waiting outbox
waiting-marked c [] outbox = omega arith
waiting-marked c (e ∷ events) outbox =
    let p = λ (x : OutboxEvent). str_eq x.id e.id in
    omega (
      arith,
      waiting-marked c events (update_where p (published_event c) outbox),
      count_if-update_where-le is_waiting p (published_event c) outbox (λ x. refl),
    )

pub waiting-after_batch :
    (limit c k : ℕ) (outbox : List OutboxEvent)
    → waiting outbox ≤ suc k
    → waiting (after_batch (suc limit) c outbox) ≤ k
waiting-after_batch limit c k outbox h =
    let p = is_claimed (suc limit) outbox in
    let claimed = update_where p claimed_event outbox in
    let fewer = waiting-marked c (map claimed_event (select p outbox)) claimed in
    elim (Bool-cases (waiting outbox == 0)) [
      | inl idle ↦
          let stays = count_if-update_where-le is_waiting p claimed_event outbox (λ x. refl) in
          let none_waits = (==_iff (waiting outbox) 0).0 idle in omega arith
      | inr busy ↦ let falls = claim-lt limit outbox (ground arith) in omega arith
    ]

pub limit_of-suc : (b : ℤ) → (m : ℕ) × (limit_of b ≡ suc m)
limit_of-suc (negsuc n) = (24, refl)
limit_of-suc (pos zero) = (24, refl)
limit_of-suc (pos (suc n)) = (n, ground arith)

pub IsSettled-done :
    (outbox : List OutboxEvent)
    → All IsSettled outbox
    → waiting outbox ≤ 0
    → All (λ (e : OutboxEvent). e.status ≡ OutboxStatus.published) outbox
IsSettled-done [] h few = tt
IsSettled-done (e ∷ outbox) h few = (
  elim h.0 [ inr published ↦ published | inl waits ↦ absurd (ground arith) ],
  IsSettled-done outbox h.1 (ground arith),
)
