-- ===== src/Go/Json.antt =====
-- What the services use of `encoding/json`: a document is the object that its bytes encode, or bytes
-- that do not decode; a struct is decoded field by field, and a missing key leaves the zero value.
use finflow.Base.{◌^◌, String, Bool, false, ◌||◌, List, [], ◌∷◌, str_eq, ltb, if◌then◌else◌}
use finflow.Base.Int.{ℤ, pos, negsuc}
use finflow.Go.Errors.{message, Result, ok, err, ◌>>=◌}

-- The values of an object's members. `time` is a `time.Time`, by its text, and `other` is any
-- value that fits neither a string nor an integer.
pub data Member : Type 0 where
  number : ℤ → Member
  text : String → Member
  time : String → Member
  null other : Member

pub data Document : Type 0 where
  object : List (String × Member) → Document
  malformed : String → Document

abbrev pub is_int64 : ℤ → Bool
is_int64 (pos n) = ltb n (2 ^ 63)
is_int64 (negsuc n) = ltb n (2 ^ 63)

-- A member decoded into a field of type string, over the value that the field has.
unfoldable pub decode_text : Member → String → Result String
decode_text (text s) old = ok s
decode_text null old = ok old
decode_text (time t) old = ok t
decode_text (number z) old = err (message "json: cannot unmarshal number into string")
decode_text other old = err (message "json: cannot unmarshal value into string")

-- A member decoded into a field of type int64.
unfoldable pub decode_number : Member → ℤ → Result ℤ
decode_number (number z) old =
    if is_int64 z then ok z else err (message "json: cannot unmarshal number into int64")
decode_number null old = ok old
decode_number (text s) old = err (message "json: cannot unmarshal string into int64")
decode_number (time t) old = err (message "json: cannot unmarshal string into int64")
decode_number other old = err (message "json: cannot unmarshal value into int64")

-- The members of one key are decoded in turn.
unfoldable pub text_field : String → String → List (String × Member) → Result String
unfolding decode_text
text_field key old [] = ok old
text_field key old ((k, m) ∷ members) =
    if str_eq k key
    then (decode_text m old >>= λ s. text_field key s members)
    else text_field key old members

unfoldable pub number_field : String → ℤ → List (String × Member) → Result ℤ
unfolding decode_number
number_field key old [] = ok old
number_field key old ((k, m) ∷ members) =
    if str_eq k key
    then (decode_number m old >>= λ z. number_field key z members)
    else number_field key old members

abbrev contains : String → List String → Bool
contains key [] = false
contains key (k ∷ keys) = str_eq key k || contains key keys

-- `DisallowUnknownFields`: each member's key is one of the struct's.
unfoldable pub only_fields : List String → List (String × Member) → Result (Unit {0})
only_fields keys [] = ok tt
only_fields keys ((k, m) ∷ members) =
    let rest = only_fields keys members in
    if contains k keys then rest else err (message "json: unknown field")
