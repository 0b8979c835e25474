-- ===== src/Fuzzer/Jazzer.antt =====
-- pkg/runner/jazzer/jazzer_runner.go: the command lines and the environment of Jazzer.
use cifuzz.Base.{
  ℕ, zero, suc, true, false, not, ◌&&◌, Option, none, some, List, [], ◌∷◌, ◌++◌, if◌then◌else◌,
}
use cifuzz.Base.Result.{Result, ok, err, ◌>>=◌}
use cifuzz.Text.{Bytes, codes, bytes_eq, join}
use cifuzz.Text.Decimal.{decimal}
use cifuzz.Text.FilePath.{base_name}
use cifuzz.Regex.{Regex, many, text_start, text_end, text, ◌⨾◌, any, match_string}
use cifuzz.Env.{setenv, lookup_env}
use cifuzz.Runner.{add_env_flags}
use cifuzz.Fuzzer.Flags.{
  lib_fuzzer_max_total_time_flag, lib_fuzzer_artifact_prefix_flag, jazzer_main_class,
  jazzer_target_class_flag, jazzer_target_method_flag, jazzer_auto_fuzz_flag, jazzer_hooks_flag,
  jazzer_dedup_flag, jazzer_keep_going_flag,
}
use cifuzz.Fuzzer.LibFuzzer.{
  RunnerOptions, Platform, RunError, target_missing, target_ambiguous, or_error, not_found,
  temp_failed, in_environment, setting, validate_options, dictionary_args,
}

pub record JazzerOptions : Type 0 where
  pub libfuzzer_options : RunnerOptions
  pub autofuzz_target : Bytes
  pub target_class : Bytes
  pub target_method : Bytes
  pub class_paths : List Bytes

-- `ValidateOptions`
abbrev pub check_target : JazzerOptions → RunnerOptions → Result RunError JazzerOptions
unfolding bytes_eq
check_target o r =
    if bytes_eq o.autofuzz_target [] && bytes_eq o.target_class []
    then err target_missing
    else if not (bytes_eq o.autofuzz_target []) && not (bytes_eq o.target_class [])
    then err target_ambiguous
    else ok (record o { libfuzzer_options = r })

unfoldable pub validate_jazzer_options : Platform → JazzerOptions → Result RunError JazzerOptions
unfolding validate_options check_target
validate_jazzer_options p o = validate_options p o.libfuzzer_options >>= check_target o

abbrev pub jvm_args : List Bytes
jvm_args =
    codes "-XX:-OmitStackTraceInFastThrow"
    ∷ codes "-XX:+UseParallelGC"
    ∷ codes "-XX:+IgnoreUnrecognizedVMOptions"
    ∷ codes "-XX:+CriticalJNINatives"
    ∷ codes "-XX:+EnableDynamicAgentLoading"
    ∷ []

unfoldable pub target_args : JazzerOptions → List Bytes
unfolding bytes_eq
target_args o =
    if not (bytes_eq o.autofuzz_target [])
    then jazzer_auto_fuzz_flag o.autofuzz_target ∷ []
    else jazzer_target_class_flag o.target_class ∷ jazzer_target_method_flag o.target_method ∷ []

unfoldable pub time_args : ℕ → List Bytes
unfolding decimal
time_args zero = []
time_args (suc n) = lib_fuzzer_max_total_time_flag (decimal (suc n)) ∷ []

abbrev pub corpus_args : Bytes → List Bytes
corpus_args [] = []
corpus_args (c ∷ dir) = (c ∷ dir) ∷ []

-- The corpus directories and the artifact prefix
abbrev pub directory_args : RunnerOptions → Bytes → List Bytes
directory_args r output_dir =
    corpus_args r.generated_corpus_dir
    ++ (r.seed_corpus_dirs ++ (lib_fuzzer_artifact_prefix_flag (output_dir ++ codes "/") ∷ []))

-- The arguments of `Run`
unfoldable pub jazzer_args : Bytes → JazzerOptions → Bytes → List Bytes
unfolding join target_args time_args
jazzer_args java_bin o output_dir =
    (java_bin ∷ codes "-cp" ∷ join (codes ":") o.class_paths ∷ jvm_args)
    ++ ((jazzer_main_class ∷ target_args o)
        ++ (time_args o.libfuzzer_options.timeout
            ++ (dictionary_args o.libfuzzer_options.dictionary
                ++ (o.libfuzzer_options.engine_args
                    ++ directory_args o.libfuzzer_options output_dir))))

-- `^org\.jacoco\.agent-.*-runtime\.jar$`
abbrev pub jacoco_agent_runtime_pattern : Regex
jacoco_agent_runtime_pattern =
    text_start ⨾ text "org.jacoco.agent-" ⨾ many any ⨾ text "-runtime.jar" ⨾ text_end

-- `^org\.jacoco\.cli-.*\.jar$`
abbrev pub jacoco_cli_pattern : Regex
jacoco_cli_pattern = text_start ⨾ text "org.jacoco.cli-" ⨾ many any ⨾ text ".jar" ⨾ text_end

-- The first class path whose base name matches
unfoldable pub find_jar : Regex → List Bytes → Option Bytes
unfolding match_string base_name
find_jar pattern [] = none
find_jar pattern (path ∷ class_paths) =
    if match_string pattern (base_name path) then some path else find_jar pattern class_paths

-- What the user cannot configure
unfoldable pub coverage_args : List Bytes
unfolding decimal
coverage_args =
    jazzer_hooks_flag false
    ∷ jazzer_keep_going_flag 2147483647
    ∷ jazzer_dedup_flag true
    ∷ lib_fuzzer_max_total_time_flag (codes "0")
    ∷ codes "-runs=0"
    ∷ []

-- The arguments of `produceJacocoExecFile`
unfoldable pub jacoco_args : Bytes → JazzerOptions → Bytes → Bytes → Bytes → List Bytes
unfolding join target_args coverage_args
jacoco_args java_bin o agent_jar output_file output_dir =
    (java_bin
      ∷ (codes "-javaagent:" ++ (agent_jar ++ (codes "=destfile=" ++ output_file)))
      ∷ codes "-cp"
      ∷ join (codes ":") o.class_paths
      ∷ jvm_args)
    ++ ((jazzer_main_class ∷ o.libfuzzer_options.engine_args)
        ++ (target_args o ++ (coverage_args ++ directory_args o.libfuzzer_options output_dir)))

-- `FuzzerEnvironment`: JAVA_HOME is looked for if it is not set.
unfoldable pub with_java_home :
    Option Bytes → List Bytes → Option Bytes → Result RunError (List Bytes)
unfolding setenv
with_java_home java_home env (some set) = ok env
with_java_home java_home env none =
    or_error not_found java_home >>= λ path. setting (setenv env (codes "JAVA_HOME") path)

unfoldable pub jazzer_environment : Option Bytes → RunnerOptions → Result RunError (List Bytes)
unfolding with_java_home lookup_env setenv
jazzer_environment java_home r = do
  env ← in_environment (add_env_flags [] r.env_vars)
  env ← with_java_home java_home env (lookup_env env (codes "JAVA_HOME"))
  setting (setenv env (codes "RULES_JNI_TRACE") (codes "1"))

-- The command line and the environment of `Run`
unfoldable pub run_jazzer :
    Platform
    → Option Bytes
    → Option Bytes
    → JazzerOptions
    → Result RunError (List Bytes × List Bytes)
unfolding validate_jazzer_options jazzer_args jazzer_environment
run_jazzer p java_path java_home options = do
  o ← validate_jazzer_options p options
  java_bin ← or_error not_found java_path
  output_dir ← or_error temp_failed p.mkdir_temp
  env ← jazzer_environment java_home o.libfuzzer_options
  ok (jazzer_args java_bin o output_dir, env)
