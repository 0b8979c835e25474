-- ===== src/Env.antt =====
-- util/envutil: environments as lists of "key=value" texts. A Go slice is a value here: `Setenv`
-- writes into the slice it is given, and every caller goes on with the slice it returns.
pub mod Map
pub mod Update
pub mod Copy
pub mod PathList
use cifuzz.Base.{
  ℕ, Bool, true, false, ◌||◌, Option, none, some, List, [], ◌∷◌, ◌++◌, map, if◌then◌else◌,
}
use cifuzz.Base.Result.{Result, ok, err, ◌>>=◌}
use cifuzz.Text.{Bytes, codes, bytes_eq, has_byte, has_prefix, cut, split}
use cifuzz.Slices.{contains, bytes_comparable}
use cifuzz.Strings.{join_non_empty}

abbrev pub Entries : Type 0
Entries = List (Bytes × Bytes)

-- A Go map with string keys, as an association list.
unfoldable pub lookup : Bytes → Entries → Option Bytes
lookup key [] = none
lookup key ((k, v) ∷ m) = if bytes_eq k key then some v else lookup key m

unfoldable pub insert : Bytes → Bytes → Entries → Entries
insert key value [] = (key, value) ∷ []
insert key value ((k, v) ∷ m) =
    if bytes_eq k key then (key, value) ∷ m else (k, v) ∷ insert key value m

-- One round of the loop of `ToMap`
unfoldable pub add_entry : Entries → Bytes → Entries
unfolding insert
add_entry res e = elim (cut b'=' e) [ none ↦ res | some (key, val) ↦ insert key val res ]

unfoldable pub to_map_onto : Entries → List Bytes → Entries
unfolding add_entry
to_map_onto res [] = res
to_map_onto res (e ∷ env) = to_map_onto (add_entry res e) env

-- `ToMap`
unfoldable pub to_map : List Bytes → Entries
unfolding to_map_onto
to_map env = to_map_onto [] env

-- `LookupEnv`
unfoldable pub lookup_env : List Bytes → Bytes → Option Bytes
unfolding to_map lookup
lookup_env env key = lookup key (to_map env)

-- `Getenv`: the zero value of a missing key is ""
unfoldable pub getenv : List Bytes → Bytes → Bytes
unfolding lookup_env
getenv env key = elim (lookup_env env key) [ none ↦ [] | some val ↦ val ]

pub data SetenvError : Type 0 where
  invalid_key invalid_value : SetenvError

-- The loop of `Setenv`, and the append behind it
unfoldable pub set_entry : Bytes → Bytes → List Bytes → List Bytes
set_entry prefix kv [] = kv ∷ []
set_entry prefix kv (e ∷ env) =
    if has_prefix e prefix then kv ∷ env else e ∷ set_entry prefix kv env

-- `Setenv`
unfoldable pub setenv : List Bytes → Bytes → Bytes → Result SetenvError (List Bytes)
unfolding set_entry
setenv env key value =
    if has_byte b'=' key || has_byte 0 key
    then err invalid_key
    else if has_byte 0 value
    then err invalid_value
    else ok (set_entry (key ++ (b'=' ∷ [])) (key ++ (b'=' ∷ value)) env)

-- The loop of `Copy`, over the entries of the map in the order in which Go visits them
unfoldable pub copy_entries : List Bytes → Entries → Result SetenvError (List Bytes)
unfolding setenv
copy_entries dst [] = ok dst
copy_entries dst ((key, value) ∷ m) = setenv dst key value >>= λ dst'. copy_entries dst' m

-- `Copy`. Go leaves the order of a map's iteration open: it is the argument `visit`.
unfoldable pub copy :
    (Entries → Entries) → List Bytes → List Bytes → Result SetenvError (List Bytes)
unfolding copy_entries to_map
copy visit dst src = copy_entries dst (visit (to_map src))

-- `QuotedEnv`; `none` is the panic on an entry without "="
unfoldable pub quoted_env : List Bytes → Option (List Bytes)
quoted_env [] = some []
quoted_env (e ∷ env) = elim (cut b'=' e) [
  | none ↦ none
  | some (k, v) ↦ elim (quoted_env env) [
    | none ↦ none
    | some quoted ↦ some ((k ++ (codes "='" ++ (v ++ codes "'"))) ∷ quoted)
  ]
]

-- The loop of `AppendToPathList`
unfoldable pub append_missing : List Bytes → List Bytes → List Bytes
unfolding contains
append_missing values [] = values
append_missing values (new_val ∷ value) =
    append_missing (if contains values new_val then values else values ++ (new_val ∷ [])) value

-- `AppendToPathList`, with the separator of Unix
unfoldable pub append_to_path_list : Bytes → List Bytes → Bytes
unfolding append_missing join_non_empty
append_to_path_list list [] = list
append_to_path_list list (v ∷ value) =
    join_non_empty (append_missing (split b':' list) (v ∷ value)) (b':' ∷ [])
