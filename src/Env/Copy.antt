-- ===== src/Env/Copy.antt =====
-- `Copy` of envutil.go: the variables of the merged environment.
use cifuzz.Base.{
  ◌≡◌, refl, sym, ap, subst, ◌∙◌, false, Option, none, some, List, [], ◌∷◌, ◌++◌, arith, Bool-cases,
  inl, inr, All,
}
use cifuzz.Base.Result.{Result, ok}
use cifuzz.Text.{Bytes, bytes_eq, bytes_eq_iff, bytes_eq_refl, cut, has_byte}
use cifuzz.Text.Split.{Free, cut-eq-some, has_byte-append}
use cifuzz.Env.{
  Entries, lookup, set_entry, setenv, SetenvError, copy_entries, copy, to_map, lookup_env,
}
use cifuzz.Env.Map.{entry_value, value_of, value_in, or_else, lookup_env-value_in}
use cifuzz.Env.Update.{IsUnique, lookup_env-setenv, setenv-IsUnique}

-- No key occurs twice in the list.
abbrev pub HasUniqueKeys : Entries → Type 0
HasUniqueKeys [] = Unit
HasUniqueKeys ((k, v) ∷ m) = (lookup k m ≡ none) × HasUniqueKeys m

-- Go's iteration over a map visits each of its entries exactly once.
pub record VisitsOnce (m visited : Entries) : Type 0 where
  pub unique : HasUniqueKeys visited
  pub same : (k : Bytes) → lookup k visited ≡ lookup k m

-- An entry that `Setenv` takes.
abbrev pub IsSettable : Bytes × Bytes → Type 0
IsSettable (k, v) = Free b'=' k × Free 0 k × Free 0 v

pub entry_value-IsSettable :
    (k e v : Bytes) → Free 0 e → entry_value k e ≡ some v → IsSettable (k, v)
unfolding entry_value
entry_value-IsSettable k e v f h = go (cut b'=' e) refl h
  where
    go : (o : Option (Bytes × Bytes)) → cut b'=' e ≡ o → value_of k o ≡ some v → IsSettable (k, v)
    go none p q = cc
    go (some (k', v')) p q =
        let (splits, free) = cut-eq-some b'=' e k' v' p in
        let nul : has_byte 0 (k' ++ (b'=' ∷ v')) ≡ false = rw (← splits) f in
        unfold has_byte in
        ground (arith, bytes_eq_iff k' k, nul, has_byte-append 0 k' (b'=' ∷ v'), free)

value_in-IsSettable :
    (k : Bytes) (env : List Bytes) (v : Bytes)
    → All (Free 0) env
    → value_in k env ≡ some v
    → IsSettable (k, v)
unfolding value_in
value_in-IsSettable k [] v f h = cc
value_in-IsSettable k (e ∷ env) v f h =
    ground (arith, value_in-IsSettable k env v f.1, entry_value-IsSettable k e v f.0)

-- What holds of each entry that is looked up holds of each entry that is visited.
pub visited-All :
    (P : Bytes × Bytes → Type 0) (entries : Entries)
    → HasUniqueKeys entries
    → ((k v : Bytes) → lookup k entries ≡ some v → P (k, v))
    → All P entries
unfolding lookup
visited-All P [] u f = tt
visited-All P ((k, v) ∷ m) u f = (
  f k v (ground (arith, bytes_eq_refl k)),
  visited-All P m u.1 (λ j w h. f j w (ground (arith, bytes_eq_iff k j, u.0))),
)

pub lookup-All :
    (P : Bytes × Bytes → Type 0) (m : Entries) (k v : Bytes)
    → All P m
    → lookup k m ≡ some v
    → P (k, v)
unfolding lookup
lookup-All P [] k v f h = cc
lookup-All P ((j, w) ∷ m) k v f h = elim (Bool-cases (bytes_eq j k)) [
  | inl same ↦
      let keys = (bytes_eq_iff j k).0 same in
      let values : w ≡ v = ground arith in
      subst (λ x. P (k, x)) values (subst (λ x. P (x, w)) keys f.0)
  | inr other ↦ lookup-All P m k v f.1 (ground arith)
]

-- What a merge must do: no failure, no variable twice, and each variable of `new` wins.
pub record Merges (dst : List Bytes) (new : Bytes → Option Bytes)
    (r : Result SetenvError (List Bytes)) : Type 0 where
  pub merged : List Bytes
  pub succeeds : r ≡ ok merged
  pub unique : IsUnique merged
  pub reads : (j : Bytes) → lookup_env merged j ≡ or_else (new j) (lookup_env dst j)

pub setenv_ok :
    (env : List Bytes) (k v : Bytes)
    → IsSettable (k, v)
    → (env' : List Bytes) × (setenv env k v ≡ ok env')
unfolding setenv
setenv_ok env k v (a, b, c) = (set_entry (k ++ (b'=' ∷ [])) (k ++ (b'=' ∷ v)) env, ground arith)

Merges-copy_entries :
    (entries : Entries) (dst : List Bytes)
    → IsUnique dst
    → HasUniqueKeys entries
    → All IsSettable entries
    → Merges dst (λ j. lookup j entries) (copy_entries dst entries)
unfolding copy_entries lookup
Merges-copy_entries [] dst u k f = record {
  merged = dst;
  succeeds = refl;
  unique = u;
  reads = λ j. refl;
}
Merges-copy_entries ((key, value) ∷ m) dst u k f =
    let (dst', e) = setenv_ok dst key value f.0 in
    let rest = Merges-copy_entries m dst' (setenv-IsUnique dst key value u e) k.1 f.1 in
    record {
      merged = rest.merged;
      succeeds = rw e rest.succeeds;
      unique = rest.unique;
      reads = λ j. ground (
        arith,
        rest.reads j,
        lookup_env-setenv dst key value j e,
        u key,
        k.0,
        bytes_eq_iff key j,
      );
    }

-- Copying an environment without NUL bytes into one without duplicates never fails, makes no
-- duplicates, and every variable then reads as in the source, or as in the destination if the
-- source does not have it, in whatever order Go visits the map.
pub copy-Merges :
    (visit : Entries → Entries) (dst src : List Bytes)
    → VisitsOnce (to_map src) (visit (to_map src))
    → IsUnique dst
    → All (Free 0) src
    → Merges dst (lookup_env src) (copy visit dst src)
unfolding copy lookup_env
copy-Merges visit dst src once u f =
    let entries = visit (to_map src) in
    let settable = visited-All IsSettable entries once.unique (λ k v h.
      value_in-IsSettable k src v f (sym (lookup_env-value_in src k) ∙ sym (once.same k) ∙ h)) in
    let done = Merges-copy_entries entries dst u once.unique settable in
    record {
      merged = done.merged;
      succeeds = done.succeeds;
      unique = done.unique;
      reads = λ j. done.reads j ∙ ap (λ o. or_else o (lookup_env dst j)) (once.same j);
    }
