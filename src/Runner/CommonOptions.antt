-- ===== src/Runner/CommonOptions.antt =====
-- The options that cifuzz forces on AddressSanitizer and UndefinedBehaviorSanitizer.
use cifuzz.Base.{
  ◌≡◌, refl, sym, ◌∙◌, Bool, true, false, Option, none, some, List, [], ◌∷◌, arith, if◌then◌else◌,
  All,
}
use mathlib.Core.Path.{ap₂}
use cifuzz.Base.Result.{ok}
use cifuzz.Text.{Bytes, codes, bytes_eq, bytes_eq_iff, bytes_eq_refl, has_byte, split}
use cifuzz.Text.Split.{Free, Free-split}
use cifuzz.Strings.{non_empty, join_non_empty}
use cifuzz.Env.{Entries, lookup, getenv, lookup_env}
use cifuzz.Env.Map.{or_else}
use cifuzz.Env.Update.{IsUnique, lookup_env-setenv}
use cifuzz.Env.Copy.{VisitsOnce, HasUniqueKeys, setenv_ok, visited-All, lookup-All}
use cifuzz.Runner.Separators.{
  IsOption, IsOption-Free, Free-set_defaults, Free-override_options, Free-non_empty, Free-join,
}
use cifuzz.Runner.SanitizerOptions.{option_value, option_value-set_sanitizer_options}
use cifuzz.Runner.{
  set_sanitizer_options, set_options_variable, set_common_asan_options, with_plain_style,
  sanitizer_options_color_value, set_defaults, override_options,
}

-- A map of options, and Go's iteration over it.
pub record Visits (visit : Entries → Entries) (m : Entries) : Type 0 where
  pub once : VisitsOnce m (visit m)
  pub texts : All IsOption (visit m)

-- Go's iteration over any map visits each of its entries once.
abbrev pub IsIteration : (Entries → Entries) → Type 0
IsIteration visit = (m : Entries) → HasUniqueKeys m → VisitsOnce m (visit m)

pub visits :
    (visit : Entries → Entries) (m : Entries)
    → IsIteration visit
    → HasUniqueKeys m
    → All IsOption m
    → Visits visit m
visits visit m iterates u f =
    let once = iterates m u in
    record {
      once = once;
      texts =
          visited-All IsOption (visit m) once.unique
            (λ k v h. lookup-All IsOption m k v f (sym (once.same k) ∙ h));
    }

module _ (visit : Entries → Entries) (name : Bytes) (env : List Bytes)
    (defaults overrides : Entries) (visits_defaults : Visits visit defaults)
    (visits_overrides : Visits visit overrides) (name_free : Free b'=' name × Free 0 name)
    (no_nul : Free 0 (getenv env name)) (unique : IsUnique env)
    (no_duplicates : IsUnique (split b':' (getenv env name))) where
  Free-options : Free 0 (set_sanitizer_options visit (getenv env name) defaults overrides)
  unfolding set_sanitizer_options
  Free-options =
      let options = split b':' (getenv env name) in
      let final = override_options (set_defaults options (visit defaults)) (visit overrides) in
      let free =
        Free-override_options 0 (visit overrides) (set_defaults options (visit defaults))
          (IsOption-Free (visit overrides) visits_overrides.texts).1
          (Free-set_defaults 0 (visit defaults) options
            (IsOption-Free (visit defaults) visits_defaults.texts).1
            (Free-split b':' 0 (getenv env name) no_nul)) in
      unfold join_non_empty in
      Free-join 0 (b':' ∷ []) (non_empty final) (unfold has_byte in refl)
        (Free-non_empty 0 final free)

  -- The options as a sanitizer reads them from the variable.
  pub record SetsOptions : Type 0 where
    pub after : List Bytes
    pub succeeds : set_options_variable visit name env defaults overrides ≡ ok after
    pub reads :
        (j : Bytes)
        → option_value j (getenv after name)
          ≡ or_else
              (lookup j overrides)
              (or_else (option_value j (getenv env name)) (lookup j defaults))
    pub keeps : (j : Bytes) → bytes_eq name j ≡ false → lookup_env after j ≡ lookup_env env j

  set_options_variable-SetsOptions : SetsOptions
  unfolding set_options_variable
  set_options_variable-SetsOptions =
      let options = set_sanitizer_options visit (getenv env name) defaults overrides in
      let (after, e) = setenv_ok env name options (name_free.0, name_free.1, Free-options) in
      let written : getenv after name ≡ options =
        unfold getenv in
        ground
          (arith, lookup_env-setenv env name options name e, bytes_eq_refl name, unique name) in
      record {
        after = after;
        succeeds = e;
        reads = λ j. rw written (
            option_value-set_sanitizer_options visit (getenv env name) defaults overrides
              visits_defaults.once visits_overrides.once visits_defaults.texts
              visits_overrides.texts no_duplicates j);
        keeps = λ j ne. ground (arith, lookup_env-setenv env name options j e);
      }

asan_name : Free b'=' (codes "ASAN_OPTIONS") × Free 0 (codes "ASAN_OPTIONS")
unfolding has_byte
asan_name = (refl, refl)

-- The maps of `SetCommonASANOptions` and `SetCommonUBSANOptions`.
abbrev pub asan_overrides : Bool → Entries
asan_overrides plain =
    with_plain_style plain
      ((codes "exitcode", codes "78") ∷ (codes "log_path", codes "stderr") ∷ [])

abbrev pub color_default : Bool → Entries
color_default terminal = (codes "color", sanitizer_options_color_value terminal) ∷ []

color_default-IsOption :
    (terminal : Bool)
    → HasUniqueKeys (color_default terminal) × All IsOption (color_default terminal)
unfolding sanitizer_options_color_value has_byte lookup
color_default-IsOption true = ((refl, tt), ((refl, refl, refl), tt))
color_default-IsOption false = ((refl, tt), ((refl, refl, refl), tt))

asan_overrides-IsOption :
    (plain : Bool) → HasUniqueKeys (asan_overrides plain) × All IsOption (asan_overrides plain)
unfolding with_plain_style has_byte lookup bytes_eq
asan_overrides-IsOption true = (
  (refl, (refl, (refl, tt))),
  ((refl, refl, refl), ((refl, refl, refl), ((refl, refl, refl), tt))),
)
asan_overrides-IsOption false = ((refl, (refl, tt)), ((refl, refl, refl), ((refl, refl, refl), tt)))

lookup-asan_overrides :
    (plain : Bool)
    → (lookup (codes "exitcode") (asan_overrides plain) ≡ some (codes "78"))
      × (lookup (codes "log_path") (asan_overrides plain) ≡ some (codes "stderr"))
      × (lookup (codes "color") (asan_overrides plain)
          ≡ (if plain then some (codes "never") else none))
unfolding with_plain_style lookup bytes_eq
lookup-asan_overrides true = (refl, refl, refl)
lookup-asan_overrides false = (refl, refl, refl)

lookup-color_default :
    (terminal : Bool) (j : Bytes)
    → lookup j (color_default terminal)
      ≡ (if bytes_eq (codes "color") j then some (sanitizer_options_color_value terminal) else none)
unfolding lookup
lookup-color_default terminal j = refl

color_lem :
    (plain terminal : Bool) (o : Option Bytes)
    → or_else (if plain then some (codes "never") else none) (
        or_else o (
          if bytes_eq (codes "color") (codes "color")
          then some (sanitizer_options_color_value terminal)
          else none))
      ≡ (if plain
          then some (codes "never")
          else or_else o (some (sanitizer_options_color_value terminal)))
color_lem plain terminal o = ground (arith, bytes_eq_refl (codes "color"))

-- What `SetCommonASANOptions` must do, as AddressSanitizer reads its options.
pub record SetsAsanOptions (visit : Entries → Entries) (terminal plain : Bool) (env : List Bytes)
    : Type 0 where
  pub after : List Bytes
  pub succeeds : set_common_asan_options visit terminal plain env ≡ ok after
  pub exitcode :
      option_value (codes "exitcode") (getenv after (codes "ASAN_OPTIONS")) ≡ some (codes "78")
  pub log_path :
      option_value (codes "log_path") (getenv after (codes "ASAN_OPTIONS")) ≡ some (codes "stderr")
  pub color : option_value (codes "color") (getenv after (codes "ASAN_OPTIONS")) ≡ (
      if plain
      then some (codes "never")
      else or_else
          (option_value (codes "color") (getenv env (codes "ASAN_OPTIONS")))
          (some (sanitizer_options_color_value terminal)))
  pub options :
      (j : Bytes)
      → option_value j (getenv after (codes "ASAN_OPTIONS"))
        ≡ or_else (lookup j (asan_overrides plain)) (
            or_else
              (option_value j (getenv env (codes "ASAN_OPTIONS")))
              (lookup j (color_default terminal)))
  pub others :
      (j : Bytes)
      → lookup_env after j ≡ (
          if bytes_eq (codes "ASAN_OPTIONS") j
          then lookup_env after (codes "ASAN_OPTIONS")
          else lookup_env env j)

-- Every fuzzer that runs under `SetCommonASANOptions` reports with exit code 78 and to stderr, in
-- plain style without colour. Any other option reads as the user set it, or as the default colour,
-- and no other variable changes. The environment must have no variable twice, the user's options
-- none twice, and no NUL; Go's iteration must visit each entry of a map once.
pub set_common_asan_options_lem :
    (visit : Entries → Entries) (terminal plain : Bool) (env : List Bytes)
    → IsIteration visit
    → IsUnique env
    → IsUnique (split b':' (getenv env (codes "ASAN_OPTIONS")))
    → Free 0 (getenv env (codes "ASAN_OPTIONS"))
    → SetsAsanOptions visit terminal plain env
unfolding set_common_asan_options
set_common_asan_options_lem visit terminal plain env iterates unique once nul =
    let (default_keys, default_texts) = color_default-IsOption terminal in
    let (override_keys, override_texts) = asan_overrides-IsOption plain in
    let (exitcode, log_path, color) = lookup-asan_overrides plain in
    let set =
      set_options_variable-SetsOptions visit (codes "ASAN_OPTIONS") env (color_default terminal)
        (asan_overrides plain)
        (visits visit (color_default terminal) iterates default_keys default_texts)
        (visits visit (asan_overrides plain) iterates override_keys override_texts) asan_name nul
        unique once in
    let user = option_value (codes "color") (getenv env (codes "ASAN_OPTIONS")) in
    record {
      after = set.after;
      succeeds = set.succeeds;
      exitcode = set.reads (codes "exitcode") ∙ cc exitcode;
      log_path = set.reads (codes "log_path") ∙ cc log_path;
      color =
          set.reads (codes "color")
          ∙ ap₂ (λ a b. or_else a (or_else user b)) color
              (lookup-color_default terminal (codes "color"))
          ∙ color_lem plain terminal user;
      options = set.reads;
      others = λ j. ground (arith, set.keeps j, bytes_eq_iff (codes "ASAN_OPTIONS") j);
    }
