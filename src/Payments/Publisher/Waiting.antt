-- ===== src/Payments/Publisher/Waiting.antt =====
-- How `ClaimPending` of outbox_repository.go brings down the number of events that wait.
use finflow.Base.{
  ℕ, suc, ◌≡◌, ◌<◌, refl, sym, ap, ◌∙◌, Bool, true, ◌&&◌, ◌||◌, List, [], ◌∷◌, select, any,
  any-select, any_of_count_if, update_where, count_if, count_if-update_where-lt, arith, str_eq,
  eq_refl,
}
use finflow.Ledger.Tables.{insert_ordered, order_by}
use finflow.Payments.Event.{OutboxEvent}
use finflow.Payments.Outbox.{is_claimable, claimed_event, claimed_ids}
use finflow.Base.{ltb}

any-insert_ordered :
    {A : Type 0} (p : A → Bool) (before : A → A → Bool) (x : A) (xs : List A)
    → any p (insert_ordered before x xs) ≡ (p x || any p xs)
unfolding insert_ordered
any-insert_ordered p before x [] = refl
any-insert_ordered p before x (y ∷ ys) = ground (arith, any-insert_ordered p before x ys)

-- Sorting keeps what the list has.
any-order_by :
    {A : Type 0} (p : A → Bool) (before : A → A → Bool) (xs : List A)
    → any p (order_by before xs) ≡ any p xs
unfolding order_by
any-order_by p before [] = refl
any-order_by p before (x ∷ xs) =
    any-insert_ordered p before x (order_by before xs)
    ∙ ap (λ b. p x || b) (any-order_by p before xs)

abbrev pub is_waiting : OutboxEvent → Bool
is_waiting e = is_claimable e.status

-- The events that a batch can still claim.
abbrev pub waiting : List OutboxEvent → ℕ
waiting events = count_if is_waiting events

abbrev pub is_claimed : ℕ → List OutboxEvent → OutboxEvent → Bool
is_claimed limit events e = any (λ i. str_eq e.id i) (claimed_ids limit events)

abbrev by_creation : List OutboxEvent → List OutboxEvent
by_creation events =
    order_by (λ (a b : OutboxEvent). ltb a.created_at b.created_at) (select is_waiting events)

any_weaken :
    {A : Type 0} (p q : A → Bool) (xs : List A)
    → ((x : A) → p x ≡ true → q x ≡ true)
    → any p xs ≡ true
    → any q xs ≡ true
any_weaken p q [] more h = cc
any_weaken p q (x ∷ xs) more h = ground (arith, more x, any_weaken p q xs more)

-- The first event in the order is claimed.
head_claimed :
    (limit : ℕ) (events l : List OutboxEvent)
    → by_creation events ≡ l
    → any (λ e. true) l ≡ true
    → any (λ e. is_waiting e && is_claimed (suc limit) events e) events ≡ true
unfolding claimed_ids
head_claimed limit events [] e h = cc
head_claimed limit events (first ∷ rest) e h =
    let in_order : any (λ (x : OutboxEvent). str_eq x.id first.id) (by_creation events) ≡ true =
      rw e (rw (eq_refl first.id) refl) in
    let in_events : any (λ (x : OutboxEvent). is_waiting x && str_eq x.id first.id) events ≡ true =
      sym (any-select (λ (x : OutboxEvent). str_eq x.id first.id) is_waiting events)
      ∙ sym (any-order_by (λ (x : OutboxEvent). str_eq x.id first.id) _ (select is_waiting events))
      ∙ in_order in
    any_weaken (λ (x : OutboxEvent). is_waiting x && str_eq x.id first.id) _ events
      (λ x both. rw e (ground arith)) in_events

pub claim-lt :
    (limit : ℕ) (events : List OutboxEvent)
    → 0 < waiting events
    → waiting (update_where (is_claimed (suc limit) events) claimed_event events) < waiting events
claim-lt limit events some_wait =
    count_if-update_where-lt is_waiting (is_claimed (suc limit) events) claimed_event events
      (λ e. refl)
      (head_claimed limit events (by_creation events) refl (
        any-order_by (λ e. true) _ (select is_waiting events)
        ∙ any-select (λ e. true) is_waiting events
        ∙ any_weaken is_waiting _ events (λ e h. ground arith)
            (any_of_count_if is_waiting events some_wait)))
