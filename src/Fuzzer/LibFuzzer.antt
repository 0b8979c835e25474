-- ===== src/Fuzzer/LibFuzzer.antt =====
-- pkg/runner/libfuzzer/libfuzzer_runner.go: the command line and the environment of libFuzzer, and what
-- its end means; with FuzzerEnvironment of pkg/runner/runnerutils.go.
use cifuzz.Base.{
  ℕ, Bool, not, ◌||◌, Option, none, some, List, [], ◌∷◌, ◌++◌, ◌==◌, map, if◌then◌else◌,
}
use cifuzz.Base.Result.{Result, ok, err, ◌>>=◌}
use cifuzz.Text.{Bytes, codes, bytes_eq}
use cifuzz.Text.Decimal.{decimal}
use cifuzz.Env.{Entries, SetenvError, setenv}
use cifuzz.Runner.{
  EnvFlagError, wrap_setenv, add_env_flags, set_ld_library_path, set_common_ubsan_options,
  set_common_asan_options, set_options_variable,
}
use cifuzz.Minijail.Bindings.{bind, read_only, read_write}
use cifuzz.Minijail.Jail.{Machine, JailError, JailOptions, new_minijail}
use cifuzz.Fuzzer.Flags.{
  lib_fuzzer_max_total_time_flag, lib_fuzzer_dictionary_flag, lib_fuzzer_artifact_prefix_flag,
}

-- The fields of `RunnerOptions` that the command line and the environment depend on; the timeout is in
-- seconds, rounded down.
pub record RunnerOptions : Type 0 where
  pub dictionary : Bytes
  pub engine_args : List Bytes
  pub env_vars : List Bytes
  pub fuzz_target : Bytes
  pub generated_corpus_dir : Bytes
  pub library_dirs : List Bytes
  pub project_dir : Bytes
  pub read_only_bindings : List Bytes
  pub seed_corpus_dirs : List Bytes
  pub timeout : ℕ
  pub use_minijail : Bool

-- What the runners ask of the machine; `none` is an error.
pub record Platform : Type 0 where
  pub linux : Bool
  pub eval_symlinks : Bytes → Option Bytes
  pub abs : Bytes → Option Bytes
  pub exists : Bytes → Bool
  pub mkdir_temp : Option Bytes
  pub llvm_symbolizer_path : Option Bytes
  pub getenv : Bytes → Bytes
  pub visit : Entries → Entries
  pub is_terminal : Bool
  pub plain_style : Bool
  pub machine : Machine

pub data RunError : Type 0 where
  minijail_not_supported symlinks_failed abs_failed temp_failed not_found stat_failed : RunError
  target_missing target_ambiguous : RunError
  bad_environment : EnvFlagError → RunError
  jail_failed : JailError → RunError

abbrev pub or_error : {A : Type 0} → RunError → Option A → Result RunError A
or_error e none = err e
or_error e (some a) = ok a

abbrev pub in_environment : {A : Type 0} → Result EnvFlagError A → Result RunError A
in_environment (ok a) = ok a
in_environment (err e) = err (bad_environment e)

abbrev pub setting : Result SetenvError (List Bytes) → Result RunError (List Bytes)
setting r = in_environment (wrap_setenv r)

abbrev pub in_jail : {A : Type 0} → Result JailError A → Result RunError A
in_jail (ok a) = ok a
in_jail (err e) = err (jail_failed e)

-- `ValidateOptions`: under minijail the path of the fuzz target becomes absolute and resolved.
unfoldable pub resolve_target : Platform → Bytes → Result RunError Bytes
resolve_target p fuzz_target = do
  resolved ← or_error symlinks_failed (p.eval_symlinks fuzz_target)
  or_error abs_failed (p.abs resolved)

unfoldable pub validate_options : Platform → RunnerOptions → Result RunError RunnerOptions
unfolding resolve_target
validate_options p r =
    if not r.use_minijail
    then ok r
    else if not p.linux
    then err minijail_not_supported
    else resolve_target p r.fuzz_target >>= λ path. ok (record r { fuzz_target = path })

abbrev pub dictionary_args : Bytes → List Bytes
dictionary_args [] = []
dictionary_args (c ∷ path) = lib_fuzzer_dictionary_flag (c ∷ path) ∷ []

-- The arguments of `Run`
unfoldable pub run_args : RunnerOptions → Bytes → List Bytes
unfolding decimal
run_args r output_dir =
    (r.fuzz_target ∷ lib_fuzzer_max_total_time_flag (decimal r.timeout) ∷ [])
    ++ (dictionary_args r.dictionary
        ++ (r.engine_args
            ++ ((r.generated_corpus_dir ∷ r.seed_corpus_dirs)
                ++ (lib_fuzzer_artifact_prefix_flag (output_dir ++ codes "/") ∷ []))))

-- The jail of `Run`
unfoldable pub jail_options : RunnerOptions → List Bytes → Bytes → JailOptions
jail_options r args output_dir = record {
  args = args;
  bindings =
      (bind r.fuzz_target read_only ∷ bind r.generated_corpus_dir read_write ∷ [])
      ++ (map (λ dir. bind dir read_only) r.read_only_bindings
          ++ map (λ dir. bind dir read_only) r.seed_corpus_dirs);
  output_dir = output_dir;
}

unfoldable pub jailed_args :
    Platform → RunnerOptions → List Bytes → Bytes → Result RunError (List Bytes)
unfolding jail_options new_minijail
jailed_args p r args output_dir =
    if r.use_minijail
    then in_jail (new_minijail p.machine (jail_options r args output_dir)) >>= (λ s. ok s.args)
    else ok args

-- `FuzzerEnvironment` of runnerutils.go
unfoldable pub base_environment : Platform → Result RunError (List Bytes)
unfolding setenv
base_environment p = do
  path ← or_error not_found p.llvm_symbolizer_path
  resolved ← or_error symlinks_failed (p.eval_symlinks path)
  found ← (if p.exists resolved then ok resolved else err stat_failed)
  env ← setting (setenv [] (codes "ASAN_SYMBOLIZER_PATH") found)
  setting (setenv env (codes "LLVM_SYMBOLIZER_OPTS") (codes "--relativenames"))

-- The options of the caller's environment
unfoldable pub inherit : Platform → Bytes → List Bytes → Result RunError (List Bytes)
unfolding setenv bytes_eq
inherit p name env =
    if not (bytes_eq (p.getenv name) []) then setting (setenv env name (p.getenv name)) else ok env

-- `FuzzerEnvironment`
unfoldable pub fuzzer_environment : Platform → RunnerOptions → Result RunError (List Bytes)
unfolding base_environment inherit
fuzzer_environment p r = do
  env ← base_environment p
  env ← setting (set_ld_library_path env r.library_dirs)
  env ← inherit p (codes "ASAN_OPTIONS") env
  env ← inherit p (codes "UBSAN_OPTIONS") env
  env ← in_environment (add_env_flags env r.env_vars)
  env ← setting (set_common_ubsan_options p.visit p.is_terminal p.plain_style env)
  env ← setting (set_common_asan_options p.visit p.is_terminal p.plain_style env)
  setting (
      set_options_variable p.visit (codes "ASAN_OPTIONS") env []
        ((codes "abort_on_error", codes "0") ∷ []))

-- The command line and the environment with which `Run` calls `RunLibfuzzerAndReport`
unfoldable pub run : Platform → RunnerOptions → Result RunError (List Bytes × List Bytes)
unfolding validate_options run_args jailed_args fuzzer_environment
run p options = do
  r ← validate_options p options
  output_dir ← or_error temp_failed p.mkdir_temp
  env ← fuzzer_environment p r
  args ← jailed_args p r (run_args r output_dir) output_dir
  ok (args, env)

-- How the command ended, in `RunLibfuzzerAndReport`: after the timeout, without an error, with an exit
-- code, or with another error
pub data End : Type 0 where
  terminated_after_context_done exited_without_error other_error : End
  exited : ℕ → End

pub data Outcome : Type 0 where
  success unexpected_exit other_failure no_exit_error : Outcome
  no_finding : ℕ → Outcome

-- `IsExpectedExitError`
unfoldable pub is_expected_exit_code : ℕ → Bool
is_expected_exit_code code = code == 78 || code == 77 || code == 71 || code == 70

-- The select on the end of the command; the nil error of a command that ended well is no `ExitError`,
-- and is returned.
unfoldable pub outcome : End → Bool → Outcome
unfolding is_expected_exit_code
outcome terminated_after_context_done finding_reported = success
outcome exited_without_error finding_reported = success
outcome other_error finding_reported = other_failure
outcome (exited code) finding_reported =
    if not (is_expected_exit_code code)
    then unexpected_exit
    else if not finding_reported
    then no_finding code
    else success
