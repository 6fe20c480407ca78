-- ===== src/Http.antt =====
-- What the services use of net/http and chi: requests, responses and handlers. A header's name is
-- written as in the code and stands for its canonical form. Routing is chi's: a request carries the
-- parameters of its route and the id that chi's middleware gave it.
pub mod Security
pub mod Access
pub mod Fields
pub mod ReverseProxy
pub mod Forwarded
use finflow.Base.{
  ℕ, ◌<◌, String, Bool, false, Option, none, some, List, [], ◌∷◌, ltb, str_eq, if◌then◌else◌,
}
use finflow.Base.Int.{ℤ, pos_part}
use finflow.Go.Errors.{Result, ok, err}
use finflow.Go.Json.{Document}

abbrev pub Headers : Type 0
Headers = List (String × String)

-- `h.Get(name)`: the first value, empty without one.
unfoldable pub get : String → Headers → String
get name [] = ""
get name ((k, v) ∷ headers) = if str_eq k name then v else get name headers

-- `h.Del(name)`
unfoldable pub del : String → Headers → Headers
del name [] = []
del name ((k, v) ∷ headers) =
    let rest = del name headers in if str_eq k name then rest else (k, v) ∷ rest

-- `h.Set(name, value)`
unfoldable pub set : String → String → Headers → Headers
unfolding del
set name value headers = (name, value) ∷ del name headers

-- A body's first JSON value, or its first fault, and how many bytes a decoder reads to see it.
pub record Body : Type 0 where
  pub document : Document
  pub length : ℕ

-- `body_limit` is the limit of `http.MaxBytesReader`, where the body is wrapped by one.
pub record Request : Type 0 where
  pub method : String
  pub host : String
  pub path : String
  pub headers : Headers
  pub remote_addr : String
  pub url_param : String → String
  pub request_id : String
  pub body : Body
  pub body_limit : Option ℤ

-- A JSON value, the JSON of `errorResponse` with its request id, or a text of net/http.
pub data Reply (P : Type 0) : Type 0 where
  payload : P → Reply P
  failure : String → String → Reply P
  plain : String → Reply P

pub record Response (P : Type 0) : Type 0 where
  pub status : ℕ
  pub headers : Headers
  pub body : Reply P

-- A handler over a state, with the response's headers that are set before it.
abbrev pub Handler : Type 0 → Type 0 → Type 0
Handler W P = Headers → Request → W → Response P × W

-- `WriteJSON`
unfoldable pub write_json : {P : Type 0} → Headers → ℕ → Reply P → Response P
write_json headers status body = record {
  status = status;
  headers = set "Content-Type" "application/json" headers;
  body = body;
}

-- `writeRequestError`, which the security packages call `writeError`
abbrev pub write_request_error : {P : Type 0} → Headers → Request → ℕ → String → Response P
write_request_error headers r status message =
    write_json headers status (failure message r.request_id)

-- What `decoder.Decode` answers: the value, a `*http.MaxBytesError`, or another error.
pub data Decoded (A : Type 0) : Type 0 where
  decoded : A → Decoded A
  too_large malformed : Decoded A

abbrev pub exceeds : Option ℤ → ℕ → Bool
exceeds none length = false
exceeds (some limit) length = ltb (pos_part limit) length

abbrev pub decoded_of : {A : Type 0} → Result A → Decoded A
decoded_of (ok a) = decoded a
decoded_of (err e) = malformed

unfoldable pub decode_body : {A : Type 0} → (Document → Result A) → Request → Decoded A
decode_body decode r =
    if exceeds r.body_limit r.body.length then too_large else decoded_of (decode r.body.document)
