-- ===== src/Env/Map.antt =====
-- `ToMap` and `LookupEnv` of envutil.go against a direct reading of the environment.
use cifuzz.Base.{◌≡◌, refl, Option, none, some, List, [], ◌∷◌, arith, if◌then◌else◌}
use cifuzz.Text.{Bytes, bytes_eq, bytes_eq_iff, cut}
use cifuzz.Env.{Entries, lookup, insert, add_entry, to_map_onto, lookup_env}

abbrev pub value_of : Bytes → Option (Bytes × Bytes) → Option Bytes
value_of key none = none
value_of key (some (k, v)) = if bytes_eq k key then some v else none

-- The value that the entry `e` gives to `key`.
unfoldable pub entry_value : Bytes → Bytes → Option Bytes
entry_value key e = value_of key (cut b'=' e)

abbrev pub or_else : Option Bytes → Option Bytes → Option Bytes
or_else (some v) o = some v
or_else none o = o

-- The value of the last entry for `key`.
unfoldable pub value_in : Bytes → List Bytes → Option Bytes
unfolding entry_value
value_in key [] = none
value_in key (e ∷ env) = or_else (value_in key env) (entry_value key e)

pub lookup-insert :
    (k j v : Bytes) (m : Entries)
    → lookup j (insert k v m) ≡ (if bytes_eq k j then some v else lookup j m)
unfolding lookup insert
lookup-insert k j v [] = refl
lookup-insert k j v ((i, w) ∷ m) =
    ground (arith, bytes_eq_iff k j, bytes_eq_iff i k, bytes_eq_iff i j, lookup-insert k j v m)

lookup-add_entry :
    (j : Bytes) (m : Entries) (e : Bytes)
    → lookup j (add_entry m e) ≡ or_else (entry_value j e) (lookup j m)
unfolding add_entry entry_value
lookup-add_entry j m e = go (cut b'=' e)
  where
    go :
        (o : Option (Bytes × Bytes))
        → lookup j (elim o [ none ↦ m | some (key, val) ↦ insert key val m ])
          ≡ or_else (value_of j o) (lookup j m)
    go none = refl
    go (some (k, v)) = ground (arith, lookup-insert k j v m)

lookup-to_map_onto :
    (j : Bytes) (m : Entries) (env : List Bytes)
    → lookup j (to_map_onto m env) ≡ or_else (value_in j env) (lookup j m)
unfolding to_map_onto value_in
lookup-to_map_onto j m [] = refl
lookup-to_map_onto j m (e ∷ env) =
    ground (arith, lookup-to_map_onto j (add_entry m e) env, lookup-add_entry j m e)

-- `LookupEnv` returns the value of the last entry of the key.
pub lookup_env-value_in : (env : List Bytes) (j : Bytes) → lookup_env env j ≡ value_in j env
unfolding lookup_env
lookup_env-value_in env j = ground (arith, lookup-to_map_onto j [] env)
