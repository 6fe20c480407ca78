-- ===== src/Http/Fields.antt =====
-- Reading a header after `Set` and `Del`.
use finflow.Base.{◌≡◌, String, [], ◌∷◌, arith, str_eq, eq_iff, if◌then◌else◌}
use finflow.Http.{Headers, get, del, set}

pub get-del :
    (name k : String) (headers : Headers)
    → get name (del k headers) ≡ (if str_eq k name then "" else get name headers)
unfolding get del
get-del name k [] = ground arith
get-del name k ((j, v) ∷ headers) =
    ground (arith, eq_iff j k, eq_iff j name, eq_iff k name, get-del name k headers)

pub get-set :
    (name k v : String) (headers : Headers)
    → get name (set k v headers) ≡ (if str_eq k name then v else get name headers)
unfolding get set
get-set name k v headers = ground (arith, get-del name k headers)
