-- ===== src/Fuzzer/JazzerJs.antt =====
-- pkg/runner/jazzerjs/jazzerjs_runner.go: the command line and the environment of Jazzer.js. The file
-- .jazzerjsrc is an argument, read and decoded; so is the encoder of JSON lists.
use cifuzz.Base.{Bool, false, ◌||◌, Option, none, some, List, [], ◌∷◌, ◌++◌, if◌then◌else◌}
use cifuzz.Base.Int.{ℤ, pos, int_eq}
use cifuzz.Base.Result.{Result, ok, err, ◌>>=◌}
use cifuzz.Text.{Bytes, codes, bytes_eq, cut}
use cifuzz.Slices.{equal, bytes_comparable}
use cifuzz.Env.{setenv}
use cifuzz.Runner.{add_env_flags}
use cifuzz.Fuzzer.Flags.{
  jazzer_js_test_path_pattern_flag, jazzer_js_test_name_pattern_flag,
  jest_test_failure_exit_code_flag,
}
use cifuzz.Fuzzer.LibFuzzer.{
  RunnerOptions, Platform, RunError, target_missing, in_environment, setting, validate_options,
}

pub record JazzerJsOptions : Type 0 where
  pub libfuzzer_options : RunnerOptions
  pub test_path_pattern : Bytes
  pub test_name_pattern : Bytes

-- The fields of `jazzerJSRC` that are used; without a file they are empty.
pub record JazzerJsRc : Type 0 where
  pub fuzzer_options : List Bytes
  pub timeout : ℤ

-- `ValidateOptions`
abbrev pub check_path : JazzerJsOptions → RunnerOptions → Result RunError JazzerJsOptions
unfolding bytes_eq
check_path o r =
    if bytes_eq o.test_path_pattern []
    then err target_missing
    else ok (record o { libfuzzer_options = r })

unfoldable pub validate_jazzer_js_options :
    Platform → JazzerJsOptions → Result RunError JazzerJsOptions
unfolding validate_options check_path
validate_jazzer_js_options p o = validate_options p o.libfuzzer_options >>= check_path o

-- The arguments of `Run`
unfoldable pub jazzer_js_args : JazzerJsOptions → List Bytes
jazzer_js_args o =
    codes "npx"
    ∷ codes "jest"
    ∷ jazzer_js_test_path_pattern_flag o.test_path_pattern
    ∷ jazzer_js_test_name_pattern_flag o.test_name_pattern
    ∷ jest_test_failure_exit_code_flag 77
    ∷ []

abbrev pub has_flag : Bytes → Option (Bytes × Bytes) → Bool
has_flag flag none = false
has_flag flag (some (rc_flag, value)) = bytes_eq rc_flag flag

-- The inner loop of `setEngineArgsAsJazzerFlags`
unfoldable pub flag_already_in_rc : Bytes → List Bytes → Bool
unfolding cut
flag_already_in_rc flag [] = false
flag_already_in_rc flag (opt ∷ options) =
    has_flag flag (cut b'=' opt) || flag_already_in_rc flag options

-- The environment and the options, in the loop over the engine arguments
pub record Engine : Type 0 where
  pub env : List Bytes
  pub fuzzer_options : List Bytes

-- One round of the loop: an argument that is no flag is left out, as is a flag that the file sets. A
-- timeout goes to a variable of its own.
unfoldable pub take_flag :
    JazzerJsRc → Bytes → Engine → Option (Bytes × Bytes) → Result RunError Engine
unfolding setenv bytes_eq flag_already_in_rc
take_flag rc arg e none = ok e
take_flag rc arg e (some (flag, value)) =
    if bytes_eq flag (codes "-timeout")
    then if int_eq rc.timeout (pos 0)
      then setting (setenv e.env (codes "JAZZER_TIMEOUT") value)
        >>= (λ env. ok (record e { env = env }))
      else ok e
    else if flag_already_in_rc flag rc.fuzzer_options
    then ok e
    else ok (record e { fuzzer_options = e.fuzzer_options ++ (arg ∷ []) })

unfoldable pub take_flags : JazzerJsRc → List Bytes → Engine → Result RunError Engine
unfolding take_flag cut
take_flags rc [] e = ok e
take_flags rc (arg ∷ args) e = take_flag rc arg e (cut b'=' arg) >>= take_flags rc args

-- The end of `setEngineArgsAsJazzerFlags`; `marshal` is `json.Marshal`.
unfoldable pub set_fuzzer_options :
    (List Bytes → Bytes) → JazzerJsRc → Engine → Result RunError (List Bytes)
unfolding setenv equal
set_fuzzer_options marshal rc e =
    if equal e.fuzzer_options rc.fuzzer_options
    then ok e.env
    else setting (setenv e.env (codes "JAZZER_FUZZER_OPTIONS") (marshal e.fuzzer_options))

-- `setEngineArgsAsJazzerFlags`, with the content of the file
unfoldable pub set_engine_args_as_jazzer_flags :
    (List Bytes → Bytes) → JazzerJsRc → List Bytes → List Bytes → Result RunError (List Bytes)
unfolding take_flags set_fuzzer_options
set_engine_args_as_jazzer_flags marshal rc engine_args env =
    take_flags rc engine_args (record { env = env; fuzzer_options = rc.fuzzer_options })
    >>= set_fuzzer_options marshal rc

-- The arguments of an empty list are not set.
unfoldable pub set_engine_args :
    (List Bytes → Bytes)
    → Result RunError JazzerJsRc
    → List Bytes
    → List Bytes
    → Result RunError (List Bytes)
unfolding set_engine_args_as_jazzer_flags
set_engine_args marshal rc [] env = ok env
set_engine_args marshal rc (arg ∷ args) env =
    rc >>= λ rc. set_engine_args_as_jazzer_flags marshal rc (arg ∷ args) env

-- `FuzzerEnvironment`; the file is read only if there are engine arguments.
unfoldable pub jazzer_js_environment :
    (List Bytes → Bytes) → Result RunError JazzerJsRc → RunnerOptions → Result RunError (List Bytes)
unfolding set_engine_args setenv
jazzer_js_environment marshal rc r = do
  env ← in_environment (add_env_flags [] r.env_vars)
  env ← setting (setenv env (codes "JAZZER_FUZZ") (codes "1"))
  set_engine_args marshal rc r.engine_args env

-- The command line and the environment of `Run`
unfoldable pub run_jazzer_js :
    Platform
    → (List Bytes → Bytes)
    → Result RunError JazzerJsRc
    → JazzerJsOptions
    → Result RunError (List Bytes × List Bytes)
unfolding validate_jazzer_js_options jazzer_js_args jazzer_js_environment
run_jazzer_js p marshal rc options = do
  o ← validate_jazzer_js_options p options
  env ← jazzer_js_environment marshal rc o.libfuzzer_options
  ok (jazzer_js_args o, env)
