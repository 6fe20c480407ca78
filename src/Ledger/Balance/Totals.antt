-- ===== src/Ledger/Balance/Totals.antt =====
-- The map of totals: what an update does to each key, and that a map of zeros is one in which every
-- currency reads as zero.
use finflow.Base.{
  ℕ, ◌<◌, ◌≡◌, refl, String, Bool, true, false, [], ◌∷◌, arith, str_eq, if◌then◌else◌, eq_iff,
  eq_refl,
}
use finflow.Base.Int.{int64_mod}
use finflow.Ledger.Balance.{Totals, update_total, all_zero}

-- `totals[c]`
abbrev pub value_of : String → Totals → ℕ
value_of c [] = 0
value_of c ((d, t) ∷ totals) = if str_eq d c then t else value_of c totals

abbrev pub has_key : String → Totals → Bool
has_key c [] = false
has_key c ((d, t) ∷ totals) = if str_eq d c then true else has_key c totals

-- Each currency once, each total an `int64` pattern.
abbrev pub IsTotals : Totals → Type 0
IsTotals [] = Unit
IsTotals ((d, t) ∷ totals) = (has_key d totals ≡ false) × (t < int64_mod) × IsTotals totals

pub value_of-update_total :
    (j c : String) (f : ℕ → ℕ) (totals : Totals)
    → value_of j (update_total c f totals)
      ≡ (if str_eq c j then f (value_of c totals) else value_of j totals)
unfolding update_total
value_of-update_total j c f [] = ground arith
value_of-update_total j c f ((d, t) ∷ totals) =
    ground
      (arith, eq_iff d c, eq_iff c j, eq_iff d j, eq_iff c c, value_of-update_total j c f totals)

has_key-update_total :
    (j c : String) (f : ℕ → ℕ) (totals : Totals)
    → has_key j (update_total c f totals) ≡ (if str_eq c j then true else has_key j totals)
unfolding update_total
has_key-update_total j c f [] = ground arith
has_key-update_total j c f ((d, t) ∷ totals) =
    ground
      (arith, eq_iff d c, eq_iff c j, eq_iff d j, eq_iff c c, has_key-update_total j c f totals)

pub update_total-IsTotals :
    (c : String) (f : ℕ → ℕ) (totals : Totals)
    → ((t : ℕ) → f t < int64_mod)
    → IsTotals totals
    → IsTotals (update_total c f totals)
unfolding update_total
update_total-IsTotals c f [] small h = (refl, small 0, tt)
update_total-IsTotals c f ((d, t) ∷ totals) small h = ground (
  arith,
  small t,
  eq_iff d c,
  eq_iff c d,
  has_key-update_total d c f totals,
  update_total-IsTotals c f totals small h.2,
)

pub value_of-lt : (c : String) (totals : Totals) → IsTotals totals → value_of c totals < int64_mod
value_of-lt c [] h = omega arith
value_of-lt c ((d, t) ∷ totals) h = ground (arith, value_of-lt c totals h.2)

pub value_of_zero : (c : String) (totals : Totals) → all_zero totals ≡ true → value_of c totals ≡ 0
unfolding all_zero
value_of_zero c [] h = refl
value_of_zero c ((d, t) ∷ totals) h = ground (arith, value_of_zero c totals)

value_of_missing : (c : String) (totals : Totals) → has_key c totals ≡ false → value_of c totals ≡ 0
value_of_missing c [] h = refl
value_of_missing c ((d, t) ∷ totals) h = ground (arith, value_of_missing c totals)

-- The other totals of a map read the same without its first key.
tail_reads :
    (c d : String) (t : ℕ) (totals : Totals)
    → has_key d totals ≡ false
    → value_of c ((d, t) ∷ totals) ≡ 0
    → value_of c totals ≡ 0
tail_reads c d t totals new h = ground (arith, eq_iff d c, value_of_missing d totals)

pub all_zero_of_reads :
    (totals : Totals)
    → IsTotals totals
    → ((c : String) → value_of c totals ≡ 0)
    → all_zero totals ≡ true
unfolding all_zero
all_zero_of_reads [] h zeros = refl
all_zero_of_reads ((d, t) ∷ totals) h zeros = ground (
  arith,
  zeros d,
  eq_refl d,
  all_zero_of_reads totals h.2 (λ c. tail_reads c d t totals h.0 (zeros c)),
)
