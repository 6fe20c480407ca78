-- ===== src/Config/Variables.antt =====
-- The readers of single variables in internal/config of the three services: `getEnv`, `parseCSVEnv`,
-- `parseIntEnv`, `parseInt64Env`, `parseBoolEnv`, `parseDurationEnv`. `getenv` is `os.Getenv` after the
-- files .env were read; an int has 64 bits.
use Prim.Native.Char.{code}
use Prim.Native.String.{◌++◌ as str_append}
use finflow.Base.{
  ℕ, String, Bool, true, false, ◌||◌, ◌==◌, Option, none, some, List, [], ◌∷◌, str_eq,
  if◌then◌else◌,
}
use finflow.Base.Int.{ℤ}
use finflow.Go.Environment.{Environment}
use finflow.Go.Errors.{Error, Sentinel, sentinel, wrap, detailed, Result, ok, err}
use finflow.Go.Strings.{is_empty, trim_space}
use finflow.Go.Numbers.{parse_int64}

-- `strings.Split` by one character.
abbrev pub on_first : (String → String) → List String → List String
on_first f [] = f "" ∷ []
on_first f (part ∷ parts) = f part ∷ parts

unfoldable pub split_on : ℕ → String → List String
split_on sep String.[] = "" ∷ []
split_on sep (String.◌∷◌ c s) =
    let parts = split_on sep s in
    if code c == sep then "" ∷ parts else on_first (String.◌∷◌ c) parts

-- `strconv.ParseBool`
abbrev pub is_true_text : String → Bool
is_true_text s =
    str_eq s "1"
    || str_eq s "t"
    || str_eq s "T"
    || str_eq s "true"
    || str_eq s "TRUE"
    || str_eq s "True"

abbrev pub is_false_text : String → Bool
is_false_text s =
    str_eq s "0"
    || str_eq s "f"
    || str_eq s "F"
    || str_eq s "false"
    || str_eq s "FALSE"
    || str_eq s "False"

unfoldable pub parse_bool : String → Option Bool
parse_bool s = if is_true_text s then some true else if is_false_text s then some false else none

-- `fmt.Errorf("invalid config: %w: KEY must be ...", ErrInvalidConfig, key)`
abbrev pub invalid : String → String → Error
invalid key text =
    wrap "invalid config"
      (detailed (sentinel Sentinel.invalid_config) (str_append key (str_append " must be " text)))

abbrev pub checked_int : String → String → Result ℤ → Result ℤ
checked_int key text (ok n) = ok n
checked_int key text (err e) = err (invalid key text)

abbrev pub checked {ℓ} : {A : Type ℓ} → String → String → Option A → Result A
checked key text none = err (invalid key text)
checked key text (some a) = ok a

module _ (env : Environment) (getenv : String → String) where
  unfoldable pub get_env : String → String → String
  get_env key fallback = let value = getenv key in if is_empty value then fallback else value

  -- The parts that are kept, without the spaces around them.
  unfoldable pub kept_parts : List String → List String
  kept_parts [] = []
  kept_parts (part ∷ parts) =
      let rest = kept_parts parts in
      let trimmed = trim_space env part in if is_empty trimmed then rest else trimmed ∷ rest

  unfoldable pub parse_csv_env : String → String → List String
  unfolding split_on kept_parts get_env
  parse_csv_env key fallback = kept_parts (split_on b',' (get_env key fallback))

  unfoldable pub parse_int64_env : String → ℤ → Result ℤ
  unfolding trim_space parse_int64
  parse_int64_env key fallback =
      let value = trim_space env (getenv key) in
      if is_empty value then ok fallback else checked_int key "an integer" (parse_int64 value)

  unfoldable pub parse_bool_env : String → Bool → Result Bool
  unfolding trim_space parse_bool
  parse_bool_env key fallback =
      let value = trim_space env (getenv key) in
      if is_empty value then ok fallback else checked key "a boolean" (parse_bool value)

  unfoldable pub parse_duration_env : String → ℤ → Result ℤ
  unfolding trim_space
  parse_duration_env key fallback =
      let value = trim_space env (getenv key) in
      if is_empty value then ok fallback else checked key "a duration" (env.parse_duration value)
