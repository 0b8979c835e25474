-- ===== src/Runner.antt =====
-- pkg/runner/runnerutils.go: the environment in which a fuzzer runs.
pub mod Separators
pub mod SanitizerOptions
pub mod CommonOptions
pub mod Flags
use cifuzz.Base.{ℕ, Bool, true, false, Option, none, some, List, [], ◌∷◌, ◌++◌, if◌then◌else◌}
use cifuzz.Base.Result.{Result, ok, err, ◌>>=◌}
use cifuzz.Text.{Bytes, codes, has_prefix, cut, split}
use cifuzz.Strings.{contains_string_with_prefix, join_non_empty}
use cifuzz.Env.{Entries, set_entry, setenv, getenv, insert, SetenvError, append_to_path_list}

abbrev pub option_prefix : Bytes → Bytes
option_prefix key = key ++ (b'=' ∷ [])

abbrev pub option_text : Bytes → Bytes → Bytes
option_text key value = key ++ (b'=' ∷ value)

-- `setDefaultIfNotSetAlready`
unfoldable pub set_default_if_not_set_already : List Bytes → Bytes → Bytes → List Bytes
unfolding contains_string_with_prefix
set_default_if_not_set_already options key value =
    if contains_string_with_prefix options (option_prefix key)
    then options
    else options ++ (option_text key value ∷ [])

-- `overrideOption`: the loop of `Setenv`, on options
unfoldable pub override_option : List Bytes → Bytes → Bytes → List Bytes
unfolding set_entry
override_option options key value = set_entry (option_prefix key) (option_text key value) options

-- The two loops of `SetSanitizerOptions`, over the entries of a map in the order of the visit
unfoldable pub set_defaults : List Bytes → Entries → List Bytes
unfolding set_default_if_not_set_already
set_defaults options [] = options
set_defaults options ((key, val) ∷ m) =
    set_defaults (set_default_if_not_set_already options key val) m

unfoldable pub override_options : List Bytes → Entries → List Bytes
unfolding override_option
override_options options [] = options
override_options options ((key, val) ∷ m) = override_options (override_option options key val) m

-- `SetSanitizerOptions`; `visit` is the order in which Go iterates over a map
unfoldable pub set_sanitizer_options : (Entries → Entries) → Bytes → Entries → Entries → Bytes
unfolding set_defaults override_options join_non_empty
set_sanitizer_options visit existing defaults overrides =
    join_non_empty
      (override_options (set_defaults (split b':' existing) (visit defaults)) (visit overrides))
      (b':' ∷ [])

-- `SetASANOptions`, and the end of `SetCommonUBSANOptions` with the other name
unfoldable pub set_options_variable :
    (Entries → Entries) → Bytes → List Bytes → Entries → Entries → Result SetenvError (List Bytes)
unfolding set_sanitizer_options setenv getenv
set_options_variable visit name env defaults overrides =
    setenv env name (set_sanitizer_options visit (getenv env name) defaults overrides)

-- The colour default is "always" on a terminal, and plain style forbids colour.
unfoldable pub with_plain_style : Bool → Entries → Entries
unfolding insert
with_plain_style plain_style overrides =
    if plain_style then insert (codes "color") (codes "never") overrides else overrides

unfoldable pub sanitizer_options_color_value : Bool → Bytes
sanitizer_options_color_value is_terminal = if is_terminal then codes "always" else codes "never"

-- `SetCommonASANOptions`; the flags are `term.IsTerminal` of stderr and `log.PlainStyle`
unfoldable pub set_common_asan_options :
    (Entries → Entries) → Bool → Bool → List Bytes → Result SetenvError (List Bytes)
unfolding with_plain_style sanitizer_options_color_value set_options_variable
set_common_asan_options visit is_terminal plain_style env =
    set_options_variable visit (codes "ASAN_OPTIONS") env
      ((codes "color", sanitizer_options_color_value is_terminal) ∷ [])
      (with_plain_style plain_style
        ((codes "exitcode", codes "78") ∷ (codes "log_path", codes "stderr") ∷ []))

-- `SetCommonUBSANOptions`
unfoldable pub set_common_ubsan_options :
    (Entries → Entries) → Bool → Bool → List Bytes → Result SetenvError (List Bytes)
unfolding with_plain_style sanitizer_options_color_value set_options_variable
set_common_ubsan_options visit is_terminal plain_style env =
    set_options_variable visit (codes "UBSAN_OPTIONS") env
      (insert (codes "print_stacktrace") (codes "1")
        ((codes "color", sanitizer_options_color_value is_terminal) ∷ []))
      (with_plain_style plain_style ((codes "log_path", codes "stderr") ∷ []))

pub data EnvFlagError : Type 0 where
  not_key_val : Bytes → EnvFlagError
  setenv_failed : SetenvError → EnvFlagError

abbrev pub wrap_setenv : Result SetenvError (List Bytes) → Result EnvFlagError (List Bytes)
wrap_setenv (ok env) = ok env
wrap_setenv (err e) = err (setenv_failed e)

-- One round of the loop of `AddEnvFlags`
abbrev pub flag_of : List Bytes → Bytes → Option (Bytes × Bytes) → Result EnvFlagError (List Bytes)
flag_of env e none = err (not_key_val e)
flag_of env e (some (key, val)) = wrap_setenv (setenv env key val)

unfoldable pub add_env_flag : List Bytes → Bytes → Result EnvFlagError (List Bytes)
add_env_flag env e = flag_of env e (cut b'=' e)

-- `AddEnvFlags`
unfoldable pub add_env_flags : List Bytes → List Bytes → Result EnvFlagError (List Bytes)
unfolding add_env_flag
add_env_flags env [] = ok env
add_env_flags env (e ∷ env_vars) = add_env_flag env e >>= λ env'. add_env_flags env' env_vars

-- `SetLDLibraryPath`
unfoldable pub set_ld_library_path : List Bytes → List Bytes → Result SetenvError (List Bytes)
unfolding setenv append_to_path_list
set_ld_library_path env library_dirs =
    setenv env (codes "LD_LIBRARY_PATH") (append_to_path_list [] library_dirs)
