-- ===== src/Runner/SanitizerOptions.antt =====
-- `SetSanitizerOptions` of runnerutils.go: which value a sanitizer reads for an option.
use cifuzz.Base.{
  ◌+◌, ◌≤◌, ◌≡◌, refl, sym, ap, ◌∙◌, Option, none, some, List, [], ◌∷◌, ◌++◌, arith, leb,
  if◌then◌else◌, All,
}
use cifuzz.Text.{Bytes, bytes_eq, bytes_eq_iff, cut, split}
use cifuzz.Text.Split.{Free, split-Free}
use cifuzz.Strings.{non_empty, join_non_empty, contains_string_with_prefix}
use cifuzz.Env.{Entries, lookup}
use cifuzz.Env.Map.{entry_value, value_in, or_else}
use cifuzz.Env.Update.{
  IsUnique, occurrences, is_some, has_prefix-entry_value, value_in-set_entry, occurrences-set_entry,
  value_in-none, value_in-some, entry_value_new,
}
use cifuzz.Env.Copy.{HasUniqueKeys, VisitsOnce}
use cifuzz.Env.PathList.{paths-join_non_empty}
use cifuzz.Runner.Separators.{IsOption, IsOption-Free, Free-set_defaults, Free-override_options}
use cifuzz.Runner.{
  option_prefix, option_text, set_default_if_not_set_already, override_option, set_defaults,
  override_options, set_sanitizer_options,
}

-- The value that a sanitizer reads: options are separated by colons, and the last one counts.
abbrev pub option_value : Bytes → Bytes → Option Bytes
option_value key options = value_in key (split b':' options)

contains_string_with_prefix-occurrences :
    (key : Bytes) (options : List Bytes)
    → Free b'=' key
    → contains_string_with_prefix options (option_prefix key) ≡ leb 1 (occurrences key options)
unfolding contains_string_with_prefix occurrences
contains_string_with_prefix-occurrences key [] h = refl
contains_string_with_prefix-occurrences key (e ∷ options) h =
    ground
      (arith, has_prefix-entry_value key e h, contains_string_with_prefix-occurrences key options h)

value_in-concat :
    (j e : Bytes) (options : List Bytes)
    → value_in j (options ++ (e ∷ [])) ≡ or_else (entry_value j e) (value_in j options)
unfolding value_in
value_in-concat j e [] = ground arith
value_in-concat j e (o ∷ options) = ground (arith, value_in-concat j e options)

occurrences-concat :
    (j e : Bytes) (options : List Bytes)
    → occurrences j (options ++ (e ∷ []))
      ≡ occurrences j options + (if is_some (entry_value j e) then 1 else 0)
unfolding occurrences
occurrences-concat j e [] = ground arith
occurrences-concat j e (o ∷ options) = ground (arith, occurrences-concat j e options)

-- A default is read if nothing was set.
value_in-set_default :
    (key value j : Bytes) (options : List Bytes)
    → Free b'=' key
    → value_in j (set_default_if_not_set_already options key value)
      ≡ or_else (value_in j options) (if bytes_eq key j then some value else none)
unfolding set_default_if_not_set_already
value_in-set_default key value j options h = ground (
  arith,
  contains_string_with_prefix-occurrences key options h,
  value_in-concat j (option_text key value) options,
  entry_value_new key value j h,
  value_in-none key options,
  value_in-some key options,
  bytes_eq_iff key j,
)

occurrences-set_default :
    (key value j : Bytes) (options : List Bytes)
    → Free b'=' key
    → occurrences j options ≤ 1
    → occurrences j (set_default_if_not_set_already options key value) ≤ 1
unfolding set_default_if_not_set_already
occurrences-set_default key value j options h u = ground (
  arith,
  contains_string_with_prefix-occurrences key options h,
  occurrences-concat j (option_text key value) options,
  entry_value_new key value j h,
  bytes_eq_iff key j,
)

value_in-set_defaults :
    (m : Entries) (options : List Bytes) (j : Bytes)
    → All IsOption m
    → value_in j (set_defaults options m) ≡ or_else (value_in j options) (lookup j m)
unfolding set_defaults lookup
value_in-set_defaults [] options j h = ground arith
value_in-set_defaults ((key, val) ∷ m) options j h = ground (
  arith,
  value_in-set_defaults m (set_default_if_not_set_already options key val) j h.1,
  value_in-set_default key val j options h.0.0,
)

IsUnique-set_defaults :
    (m : Entries) (options : List Bytes)
    → All IsOption m
    → IsUnique options
    → IsUnique (set_defaults options m)
unfolding set_defaults
IsUnique-set_defaults [] options h u = u
IsUnique-set_defaults ((key, val) ∷ m) options h u =
    IsUnique-set_defaults m (set_default_if_not_set_already options key val) h.1
      (λ j. occurrences-set_default key val j options h.0.0 (u j))

value_in-override_option :
    (key val : Bytes) (options : List Bytes) (j : Bytes)
    → Free b'=' key
    → value_in j (override_option options key val) ≡ (
        if bytes_eq key j
        then (if leb (occurrences key options) 1 then some val else value_in key options)
        else value_in j options)
unfolding override_option
value_in-override_option key val options j h = value_in-set_entry key val options j h

IsUnique-override_option :
    (key val : Bytes) (options : List Bytes)
    → Free b'=' key
    → IsUnique options
    → IsUnique (override_option options key val)
unfolding override_option
IsUnique-override_option key val options h u j =
    ground (arith, occurrences-set_entry key val options j h, u j)

value_in-override_options :
    (m : Entries) (options : List Bytes) (j : Bytes)
    → All IsOption m
    → HasUniqueKeys m
    → IsUnique options
    → value_in j (override_options options m) ≡ or_else (lookup j m) (value_in j options)
unfolding override_options lookup
value_in-override_options [] options j h k u = refl
value_in-override_options ((key, val) ∷ m) options j h k u = ground (
  arith,
  value_in-override_options m (override_option options key val) j h.1 k.1
      (IsUnique-override_option key val options h.0.0 u),
  value_in-override_option key val options j h.0.0,
  k.0,
  u key,
  bytes_eq_iff key j,
)

-- An empty entry sets nothing.
value_in-non_empty :
    (j : Bytes) (options : List Bytes) → value_in j (non_empty options) ≡ value_in j options
unfolding non_empty value_in cut
value_in-non_empty j [] = refl
value_in-non_empty j ([] ∷ options) = ground (arith, value_in-non_empty j options)
value_in-non_empty j ((c ∷ o) ∷ options) = ground (arith, value_in-non_empty j options)

module _ (visit : Entries → Entries) (existing : Bytes) (defaults overrides : Entries)
    (visits_defaults : VisitsOnce defaults (visit defaults))
    (visits_overrides : VisitsOnce overrides (visit overrides))
    (default_texts : All IsOption (visit defaults))
    (override_texts : All IsOption (visit overrides))
    (no_duplicates : IsUnique (split b':' existing)) where
  -- A sanitizer that is given the options of `SetSanitizerOptions` reads each option from the
  -- overrides, else from the existing options, else from the defaults, if no existing option occurs
  -- twice and no new one holds a separator.
  pub option_value-set_sanitizer_options :
      (j : Bytes)
      → option_value j (set_sanitizer_options visit existing defaults overrides)
        ≡ or_else (lookup j overrides) (or_else (option_value j existing) (lookup j defaults))
  unfolding set_sanitizer_options
  option_value-set_sanitizer_options j =
      let options = split b':' existing in
      let defaulted = set_defaults options (visit defaults) in
      let final = override_options defaulted (visit overrides) in
      let free =
        Free-override_options b':' (visit overrides) defaulted
          (IsOption-Free (visit overrides) override_texts).0
          (Free-set_defaults b':' (visit defaults) options
            (IsOption-Free (visit defaults) default_texts).0 (split-Free b':' existing)) in
      sym (value_in-non_empty j (split b':' (join_non_empty final (b':' ∷ []))))
      ∙ ap (value_in j) (paths-join_non_empty final free)
      ∙ value_in-non_empty j final
      ∙ ground (
        arith,
        value_in-override_options (visit overrides) defaulted j override_texts
            visits_overrides.unique
            (IsUnique-set_defaults (visit defaults) options default_texts no_duplicates),
        value_in-set_defaults (visit defaults) options j default_texts,
        visits_overrides.same j,
        visits_defaults.same j,
      )
