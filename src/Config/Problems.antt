-- ===== src/Config/Problems.antt =====
-- What the three `Validate` methods share: a list of problems, and the error made of it.
use finflow.Base.{
  ◌≡◌, refl, String, Bool, true, false, ◌||◌, none, some, List, [], ◌∷◌, ◌++◌, All, if◌then◌else◌,
  ◌↔◌,
}
use finflow.Go.Environment.{Environment}
use finflow.Go.Errors.{Sentinel, sentinel, wrap, detailed, Result, ok, err}
use finflow.Go.Strings.{is_empty, trim_space, join}

-- `if test { problems = append(problems, text) }`, one after the other.
unfoldable pub problems_of : List (Bool × String) → List String
problems_of [] = []
problems_of ((test, text) ∷ checks) = if test then text ∷ problems_of checks else problems_of checks

-- The end of `Validate`.
unfoldable pub verdict : List String → Result (Unit {0})
unfolding join
verdict [] = ok tt
verdict (p ∷ problems) =
    err (
      wrap "invalid config"
        (detailed (sentinel Sentinel.invalid_config) (join (p ∷ problems) "; ")))

-- `strings.TrimSpace(s) == ""`
abbrev pub is_blank : Environment → String → Bool
is_blank env s = is_empty (trim_space env s)

-- `err != nil || parsed.Scheme == "" || parsed.Host == ""` of `url.Parse`.
abbrev pub is_bad_database_url : Environment → String → Bool
is_bad_database_url env s = elim (env.parse_url s) [
  | none ↦ true
  | some (scheme, host) ↦ is_empty scheme || is_empty host
]

pub verdict_iff : (problems : List String) → (verdict problems ≡ ok tt) ↔ (problems ≡ [])
unfolding verdict
verdict_iff [] = (λ h. refl, λ h. refl)
verdict_iff (p ∷ problems) = (λ h. cc, λ h. cc)

-- Without problems, every test is false, and conversely.
pub problems_of_iff :
    (checks : List (Bool × String)) → (problems_of checks ≡ []) ↔ All (λ c. c.0 ≡ false) checks
unfolding problems_of
problems_of_iff [] = (λ h. tt, λ h. refl)
problems_of_iff ((true, text) ∷ checks) = (λ h. cc, λ h. cc)
problems_of_iff ((false, text) ∷ checks) =
    (λ h. (refl, (problems_of_iff checks).0 h), λ h. (problems_of_iff checks).1 h.1)

pub append_nil_iff : (xs ys : List String) → (xs ++ ys ≡ []) ↔ ((xs ≡ []) × (ys ≡ []))
append_nil_iff [] ys = (λ h. (refl, h), λ h. h.1)
append_nil_iff (x ∷ xs) ys = (λ h. cc, λ h. cc)

-- Both lists of tests pass.
pub checked_iff :
    (own more : List (Bool × String))
    → (verdict (problems_of own ++ problems_of more) ≡ ok tt)
      ↔ (All (λ c. c.0 ≡ false) own × All (λ c. c.0 ≡ false) more)
checked_iff own more = (
  λ h.
      let both =
        (append_nil_iff (problems_of own) (problems_of more)).0
          ((verdict_iff (problems_of own ++ problems_of more)).0 h) in
      ((problems_of_iff own).0 both.0, (problems_of_iff more).0 both.1),
  λ h. (verdict_iff (problems_of own ++ problems_of more)).1 (
      (append_nil_iff (problems_of own) (problems_of more)).1
        ((problems_of_iff own).1 h.0, (problems_of_iff more).1 h.1)),
)
