-- ===== src/Go/Environment.antt =====
-- What the services read of code that is not theirs: Unicode's character tables (of the package
-- `unicode`), `net/url`, `google/uuid`, PostgreSQL's reading of a UUID column, and SHA-256 in hexadecimal.
use Prim.Native.Char.{Char}
use finflow.Base.{ℕ, String, Bool, Option, List}
use finflow.Base.Int.{ℤ}

pub record Environment : Type 0 where
  pub is_space : Char → Bool
  pub is_letter : Char → Bool
  pub is_upper : Char → Bool
  pub upper : Char → Char
  pub lower : Char → Char
  -- `uuid.Parse(s)` returns no error.
  pub parses : String → Bool
  -- The canonical text of a UUID that PostgreSQL reads, `none` where it refuses the text.
  pub read_uuid : String → Option String
  -- The n-th result of `uuid.NewString()`.
  pub new_string : ℕ → String
  -- `hex.EncodeToString(sha256.Sum256(bytes))`
  pub sha256_hex : String → String
  -- A time in RFC 3339 with nanoseconds.
  pub format_time : ℕ → String
  -- The scheme and the host that `url.Parse` finds, `none` where it returns an error.
  pub parse_url : String → Option (String × String)
  -- The path of the URL that `url.Parse` finds.
  pub url_path : String → String
  -- The nanoseconds that `time.ParseDuration` reads, `none` where it returns an error.
  pub parse_duration : String → Option ℤ
  -- The names that a value of the header Connection lists between commas, in canonical form.
  pub header_names : String → List String
