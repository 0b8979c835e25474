-- ===== src/Env/Update.antt =====
-- `Setenv` of envutil.go: what it does to each variable.
use cifuzz.Base.{
  ℕ, ◌+◌, ◌≤◌, ◌≡◌, refl, Bool, true, false, ◌&&◌, Option, none, some, List, [], ◌∷◌, ◌++◌, arith,
  ◌==◌, leb, if◌then◌else◌,
}
use cifuzz.Base.Result.{ok}
use cifuzz.Text.{Bytes, bytes_eq, bytes_eq_iff, cut, has_byte, has_prefix}
use cifuzz.Text.Split.{Free, cut-append}
use cifuzz.Env.{set_entry, setenv, lookup_env}
use cifuzz.Env.Map.{entry_value, value_of, value_in, lookup_env-value_in}

abbrev pub is_some {ℓ} : {A : Type ℓ} → Option A → Bool
is_some none = false
is_some (some a) = true

-- The number of entries for `key`.
unfoldable pub occurrences : Bytes → List Bytes → ℕ
unfolding entry_value
occurrences key [] = 0
occurrences key (e ∷ env) = (if is_some (entry_value key e) then 1 else 0) + occurrences key env

-- No variable occurs twice.
abbrev pub IsUnique : List Bytes → Type 0
IsUnique env = (key : Bytes) → occurrences key env ≤ 1

-- The test of the loop finds the entries of the key.
pub has_prefix-entry_value :
    (key e : Bytes)
    → Free b'=' key
    → has_prefix e (key ++ (b'=' ∷ [])) ≡ is_some (entry_value key e)
unfolding has_prefix entry_value cut bytes_eq has_byte
has_prefix-entry_value [] [] h = refl
has_prefix-entry_value [] (x ∷ e) h = go (cut b'=' e) refl
  where
    go :
        (o : Option (Bytes × Bytes))
        → cut b'=' e ≡ o
        → has_prefix (x ∷ e) (b'=' ∷ []) ≡ is_some (entry_value [] (x ∷ e))
    go none p = ground arith
    go (some (before, after)) p = ground arith
has_prefix-entry_value (y ∷ key) [] h = refl
has_prefix-entry_value (y ∷ key) (x ∷ e) h = go (cut b'=' e) refl (has_prefix-entry_value key e)
  where
    go :
        (o : Option (Bytes × Bytes))
        → cut b'=' e ≡ o
        → (Free b'=' key → has_prefix e (key ++ (b'=' ∷ [])) ≡ is_some (entry_value key e))
        → has_prefix (x ∷ e) ((y ∷ key) ++ (b'=' ∷ [])) ≡ is_some (entry_value (y ∷ key) (x ∷ e))
    go none p ih = ground arith
    go (some (before, after)) p ih = ground arith

pub entry_value_new :
    (key value j : Bytes)
    → Free b'=' key
    → entry_value j (key ++ (b'=' ∷ value)) ≡ (if bytes_eq key j then some value else none)
unfolding entry_value
entry_value_new key value j h = rw (cut-append b'=' key value h, entry_value)

-- An entry of one key is no entry of another.
entry_value_other :
    (key j e : Bytes)
    → is_some (entry_value key e) ≡ true
    → bytes_eq key j ≡ false
    → entry_value j e ≡ none
unfolding entry_value
entry_value_other key j e h ne = go (cut b'=' e) h
  where
    go : (o : Option (Bytes × Bytes)) → is_some (value_of key o) ≡ true → value_of j o ≡ none
    go none h = refl
    go (some (k, v)) h = ground (arith, bytes_eq_iff k key, bytes_eq_iff k j, bytes_eq_iff key j)

-- What is read back after the write.
abbrev pub after_set : Bytes → Bytes → List Bytes → Bytes → Option Bytes
after_set key value env j =
    if bytes_eq key j
    then (if leb (occurrences key env) 1 then some value else value_in key env)
    else value_in j env

pub value_in-none :
    (key : Bytes) (env : List Bytes) → occurrences key env ≡ 0 → value_in key env ≡ none
unfolding occurrences value_in
value_in-none key [] h = refl
value_in-none key (e ∷ env) h = ground (arith, value_in-none key env)

pub value_in-some :
    (key : Bytes) (env : List Bytes) → 1 ≤ occurrences key env → is_some (value_in key env) ≡ true
unfolding occurrences value_in
value_in-some key [] h = absurd (omega arith)
value_in-some key (e ∷ env) h = ground (arith, value_in-some key env)

pub value_in-set_entry :
    (key value : Bytes) (env : List Bytes) (j : Bytes)
    → Free b'=' key
    → value_in j (set_entry (key ++ (b'=' ∷ [])) (key ++ (b'=' ∷ value)) env)
      ≡ after_set key value env j
unfolding set_entry value_in occurrences
value_in-set_entry key value [] j h = ground (arith, entry_value_new key value j h)
value_in-set_entry key value (e ∷ env) j h = ground (
  arith,
  has_prefix-entry_value key e h,
  entry_value_new key value j h,
  entry_value_other key j e,
  bytes_eq_iff key j,
  value_in-none key env,
  value_in-some key env,
  value_in-set_entry key value env j h,
)

pub occurrences-set_entry :
    (key value : Bytes) (env : List Bytes) (j : Bytes)
    → Free b'=' key
    → occurrences j (set_entry (key ++ (b'=' ∷ [])) (key ++ (b'=' ∷ value)) env)
      ≡ (if bytes_eq key j && (occurrences key env == 0) then 1 else occurrences j env)
unfolding set_entry occurrences
occurrences-set_entry key value [] j h = ground (arith, entry_value_new key value j h)
occurrences-set_entry key value (e ∷ env) j h = ground (
  arith,
  has_prefix-entry_value key e h,
  entry_value_new key value j h,
  entry_value_other key j e,
  bytes_eq_iff key j,
  occurrences-set_entry key value env j h,
)

-- After a `Setenv` that succeeds, every other variable reads as before. The variable itself reads
-- as the new value if it had at most one entry; with more entries it still reads as the last one.
pub lookup_env-setenv :
    (env : List Bytes) (key value : Bytes) {env' : List Bytes} (j : Bytes)
    → setenv env key value ≡ ok env'
    → lookup_env env' j ≡ (
        if bytes_eq key j
        then (if leb (occurrences key env) 1 then some value else lookup_env env key)
        else lookup_env env j)
unfolding setenv
lookup_env-setenv env key value {env'} j h = ground (
  arith,
  lookup_env-value_in env' j,
  lookup_env-value_in env j,
  lookup_env-value_in env key,
  value_in-set_entry key value env j,
)

-- `Setenv` never makes a variable occur twice.
pub setenv-IsUnique :
    (env : List Bytes) (key value : Bytes) {env' : List Bytes}
    → IsUnique env
    → setenv env key value ≡ ok env'
    → IsUnique env'
unfolding setenv
setenv-IsUnique env key value {env'} u h j =
    ground (arith, occurrences-set_entry key value env j, u j)
