-- ===== src/Go/Net.antt =====
-- `net.SplitHostPort`: the host of an address, `none` where it returns an error.
use Prim.Native.Char.{code}
use finflow.Base.{ℕ, String, Bool, false, not, ◌||◌, ◌==◌, Option, none, some, if◌then◌else◌}
use finflow.Go.Strings.{cut}

unfoldable pub has_char : ℕ → String → Bool
has_char n String.[] = false
has_char n (String.◌∷◌ c s) = code c == n || has_char n s

-- `host:port`, with one colon and no bracket.
abbrev pub plain_host : Option (String × String) → Option String
plain_host none = none
plain_host (some (host, port)) =
    if has_char b':' port
      || has_char b'[' host
      || has_char b'[' port
      || has_char b']' host
      || has_char b']' port
    then none
    else some host

abbrev pub after_bracket : String → String → Option String
after_bracket host String.[] = none
after_bracket host (String.◌∷◌ c port) =
    if not (code c == b':')
      || has_char b':' port
      || has_char b'[' host
      || has_char b'[' port
      || has_char b']' port
    then none
    else some host

-- `[host]:port`
abbrev pub bracketed_host : Option (String × String) → Option String
bracketed_host none = none
bracketed_host (some (host, rest)) = after_bracket host rest

unfoldable pub split_host : String → Option String
unfolding cut has_char
split_host String.[] = none
split_host (String.◌∷◌ c s) =
    if code c == b'[' then bracketed_host (cut b']' s) else plain_host (cut b':' (String.◌∷◌ c s))
