-- ===== src/Base/Lists.antt =====
-- Lists measured by native numbers, predicates over lists, and the searches that the code writes.
use Prim.Native.Nat.{ℕ, zero, suc, ◌+◌, ◌≤◌, ◌<◌}
use mathlib.Core.Path.{◌≡◌, refl}
use mathlib.Core.Bool.{Bool, true, false, ◌&&◌, ◌||◌}
use mathlib.Core.Option.{Option, none, some}
use mathlib.Core.List.{List, [], ◌∷◌, ◌++◌}
use native.Mathlib.Omega.{arith}
use mathlib.Core.Logic.{inl, inr}
use finflow.Base.Tests.{if◌then◌else◌, Bool-cases}

module _ {ℓ} {A : Type ℓ} where
  abbrev pub length : List A → ℕ
  length [] = 0
  length (x ∷ xs) = suc (length xs)

  abbrev pub any : (A → Bool) → List A → Bool
  any p [] = false
  any p (x ∷ xs) = p x || any p xs

  -- `for ... if p(x) { return x }`
  abbrev pub find : (A → Bool) → List A → Option A
  find p [] = none
  find p (x ∷ xs) = if p x then some x else find p xs

  -- The rows that a WHERE clause keeps.
  abbrev pub select : (A → Bool) → List A → List A
  select p [] = []
  select p (x ∷ xs) = if p x then x ∷ select p xs else select p xs

  -- LIMIT n
  abbrev pub take : ℕ → List A → List A
  take n [] = []
  take zero (x ∷ xs) = []
  take (suc n) (x ∷ xs) = x ∷ take n xs

  -- UPDATE ... WHERE: the rows after it.
  abbrev pub update_where : (A → Bool) → (A → A) → List A → List A
  update_where p f [] = []
  update_where p f (x ∷ xs) = (if p x then f x else x) ∷ update_where p f xs

  -- SELECT count(*) ... WHERE
  abbrev pub count_if : (A → Bool) → List A → ℕ
  count_if p [] = 0
  count_if p (x ∷ xs) = (if p x then 1 else 0) + count_if p xs

  pub length-append : (xs ys : List A) → length (xs ++ ys) ≡ length xs + length ys
  length-append [] ys = omega arith
  length-append (x ∷ xs) ys = omega (arith, length-append xs ys)

  pub count_if-append :
      (p : A → Bool) (xs ys : List A) → count_if p (xs ++ ys) ≡ count_if p xs + count_if p ys
  count_if-append p [] ys = omega arith
  count_if-append p (x ∷ xs) ys = omega (arith, count_if-append p xs ys)

  pub any-append : (p : A → Bool) (xs ys : List A) → any p (xs ++ ys) ≡ (any p xs || any p ys)
  any-append p [] ys = refl
  any-append p (x ∷ xs) ys = ground (arith, any-append p xs ys)

  pub find-holds : (p : A → Bool) (xs : List A) (x : A) → find p xs ≡ some x → p x ≡ true
  find-holds p [] x h = ground arith
  find-holds p (y ∷ xs) x h = ground (arith, find-holds p xs x)

-- A predicate by recursion, which the tactics read and build.
abbrev pub All {ℓ κ} : {A : Type ℓ} → (A → Type κ) → List A → Type κ
All P [] = Unit
All P (x ∷ xs) = P x × All P xs

pub All-append {ℓ κ} :
    {A : Type ℓ} (P : A → Type κ) (front back : List A)
    → All P front
    → All P back
    → All P (front ++ back)
All-append P [] back here there = there
All-append P (x ∷ front) back here there = (here.0, All-append P front back here.1 there)

pub find-All {ℓ κ} :
    {A : Type ℓ} (P : A → Type κ) (p : A → Bool) (xs : List A) (x : A)
    → All P xs
    → find p xs ≡ some x
    → P x
find-All P p [] x h e = ground arith
find-All P p (y ∷ xs) x h e = ground (arith, find-All P p xs x h.1)

pub update_where-All {ℓ κ} :
    {A : Type ℓ} (P : A → Type κ) (p : A → Bool) (f : A → A) (xs : List A)
    → ((x : A) → p x ≡ true → P x → P (f x))
    → All P xs
    → All P (update_where p f xs)
update_where-All P p f [] keeps h = h
update_where-All P p f (x ∷ xs) keeps h = (first, update_where-All P p f xs keeps h.1)
  where
    first : P (if p x then f x else x)
    first = elim (Bool-cases (p x)) [ inl hit ↦ rw hit (keeps x hit h.0) | inr miss ↦ rw miss h.0 ]

pub select-All {ℓ κ} :
    {A : Type ℓ} (P : A → Type κ) (p : A → Bool) (xs : List A) → All P xs → All P (select p xs)
select-All P p [] h = h
select-All P p (x ∷ xs) h = elim (Bool-cases (p x)) [
  | inl hit ↦ rw hit (h.0, select-All P p xs h.1)
  | inr miss ↦ rw miss (select-All P p xs h.1)
]

pub All-weaken {ℓ κ μ} :
    {A : Type ℓ} (P : A → Type κ) (Q : A → Type μ) (xs : List A)
    → ((x : A) → P x → Q x)
    → All P xs
    → All Q xs
All-weaken P Q [] f h = tt
All-weaken P Q (x ∷ xs) f h = (f x h.0, All-weaken P Q xs f h.1)

-- A rule for each row, hit or missed by the clause.
pub update_where_rule {ℓ κ μ} :
    {A : Type ℓ} (P : A → Type κ) (Q : A → Type μ) (p : A → Bool) (f : A → A) (xs : List A)
    → ((x : A) → p x ≡ true → P x → Q (f x))
    → ((x : A) → p x ≡ false → P x → Q x)
    → All P xs
    → All Q (update_where p f xs)
update_where_rule P Q p f [] changed kept h = tt
update_where_rule P Q p f (x ∷ xs) changed kept h =
    (first, update_where_rule P Q p f xs changed kept h.1)
  where
    first : Q (if p x then f x else x)
    first = elim (Bool-cases (p x)) [
      | inl hit ↦ rw hit (changed x hit h.0)
      | inr miss ↦ rw miss (kept x miss h.0)
    ]

module _ {ℓ} {A : Type ℓ} where
  -- A change that no row counts after cannot raise the count, and lowers it where it hits one.
  pub count_if-update_where-le :
      (c p : A → Bool) (f : A → A) (xs : List A)
      → ((x : A) → c (f x) ≡ false)
      → count_if c (update_where p f xs) ≤ count_if c xs
  count_if-update_where-le c p f [] gone = omega arith
  count_if-update_where-le c p f (x ∷ xs) gone =
      ground (arith, gone x, count_if-update_where-le c p f xs gone)

  pub count_if-update_where-lt :
      (c p : A → Bool) (f : A → A) (xs : List A)
      → ((x : A) → c (f x) ≡ false)
      → any (λ x. c x && p x) xs ≡ true
      → count_if c (update_where p f xs) < count_if c xs
  count_if-update_where-lt c p f [] gone h = cc
  count_if-update_where-lt c p f (x ∷ xs) gone h = ground (
    arith,
    gone x,
    count_if-update_where-le c p f xs gone,
    count_if-update_where-lt c p f xs gone,
  )

  pub any_of_count_if : (c : A → Bool) (xs : List A) → 0 < count_if c xs → any c xs ≡ true
  any_of_count_if c [] h = absurd (omega arith)
  any_of_count_if c (x ∷ xs) h = ground (arith, any_of_count_if c xs)

  pub any-select : (p c : A → Bool) (xs : List A) → any p (select c xs) ≡ any (λ x. c x && p x) xs
  any-select p c [] = refl
  any-select p c (x ∷ xs) = ground (arith, any-select p c xs)

pub All-both {ℓ κ μ} :
    {A : Type ℓ} (P : A → Type κ) (Q : A → Type μ) (xs : List A)
    → All P xs
    → All Q xs
    → All (λ x. P x × Q x) xs
All-both P Q [] h k = tt
All-both P Q (x ∷ xs) h k = ((h.0, k.0), All-both P Q xs h.1 k.1)
