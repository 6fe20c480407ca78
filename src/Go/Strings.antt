-- ===== src/Go/Strings.antt =====
-- The package `strings` and the loops over a string, on texts in UTF-8.
use Prim.Native.Char.{Char, code}
use Prim.Native.String.{◌++◌ as str_append}
use text.Mathlib.TextLemmas.{nil-append, cons-append}
use mathlib.Core.Option
use finflow.Base.{
  ℕ, ◌≡◌, ap, ◌∙◌, String, Bool, true, false, ◌&&◌, ◌==◌, Option, none, some, List, [], ◌∷◌, str_eq,
  if◌then◌else◌,
}
use finflow.Go.Environment.{Environment}

abbrev pub is_empty : String → Bool
is_empty String.[] = true
is_empty (String.◌∷◌ c s) = false

-- `for _, char := range s { if !p(char) { return false } }`
unfoldable pub every : (Char → Bool) → String → Bool
every p String.[] = true
every p (String.◌∷◌ c s) = p c && every p s

-- `strings.Map`, for a map that drops nothing.
unfoldable pub map_chars : (Char → Char) → String → String
map_chars f String.[] = String.[]
map_chars f (String.◌∷◌ c s) = String.◌∷◌ (f c) (map_chars f s)

unfoldable pub trim_left : (Char → Bool) → String → String
trim_left p String.[] = String.[]
trim_left p (String.◌∷◌ c s) = if p c then trim_left p s else String.◌∷◌ c s

unfoldable pub trim_right : (Char → Bool) → String → String
trim_right p String.[] = String.[]
trim_right p (String.◌∷◌ c s) =
    let rest = trim_right p s in if p c && is_empty rest then String.[] else String.◌∷◌ c rest

module _ (env : Environment) where
  unfoldable pub trim_space : String → String
  unfolding trim_left trim_right
  trim_space s = trim_right env.is_space (trim_left env.is_space s)

  unfoldable pub to_upper : String → String
  unfolding map_chars
  to_upper s = map_chars env.upper s

  unfoldable pub to_lower : String → String
  unfolding map_chars
  to_lower s = map_chars env.lower s

-- `strings.Join`
unfoldable pub join : List String → String → String
join [] sep = ""
join (s ∷ []) sep = s
join (s ∷ t ∷ rest) sep = str_append s (str_append sep (join (t ∷ rest) sep))

-- `strings.HasPrefix` and `strings.TrimPrefix`: what follows the prefix.
unfoldable pub strip_prefix : String → String → Option String
strip_prefix String.[] s = some s
strip_prefix (String.◌∷◌ p prefix) String.[] = none
strip_prefix (String.◌∷◌ p prefix) (String.◌∷◌ c s) =
    if code p == code c then strip_prefix prefix s else none

abbrev pub trim_prefix : String → String → String
trim_prefix prefix s = elim (strip_prefix prefix s) [ none ↦ s | some rest ↦ rest ]

-- `strings.HasSuffix` and `strings.TrimSuffix`: what stands before the suffix.
unfoldable pub strip_suffix : String → String → Option String
strip_suffix suffix String.[] = if is_empty suffix then some "" else none
strip_suffix suffix (String.◌∷◌ c s) =
    let longer = Option.map (String.◌∷◌ c) (strip_suffix suffix s) in
    if str_eq (String.◌∷◌ c s) suffix then some "" else longer

-- `strings.SplitN(s, sep, 2)` for a separator of one character: the two parts, `none` without one.
unfoldable pub cut : ℕ → String → Option (String × String)
cut sep String.[] = none
cut sep (String.◌∷◌ c s) =
    let later = Option.map (λ (p : String × String). (String.◌∷◌ c p.0, p.1)) (cut sep s) in
    if code c == sep then some ("", s) else later

-- A text before another, character by character.
abbrev pub prepend : String → String → String
prepend String.[] s = s
prepend (String.◌∷◌ c prefix) s = String.◌∷◌ c (prepend prefix s)

pub append-prepend : (prefix s : String) → str_append prefix s ≡ prepend prefix s
append-prepend String.[] s = nil-append s
append-prepend (String.◌∷◌ c prefix) s =
    cons-append c prefix s ∙ ap (String.◌∷◌ c) (append-prepend prefix s)
