-- ===== src/Tests/FuzzerTests.antt =====
-- The command lines and environments of the fuzzers at concrete inputs.
use cifuzz.Runner.{
  add_env_flags, set_common_asan_options, set_common_ubsan_options, set_ld_library_path,
}
use cifuzz.Base.{◌≡◌, refl, true, false, some, List, [], ◌∷◌, arith}
use cifuzz.Base.Int.{pos}
use cifuzz.Base.Result.{ok}
use cifuzz.Text.{Bytes, codes, join, has_byte, cut, has_prefix, split}
use cifuzz.Env.Update.{IsUnique, occurrences}
use cifuzz.Fuzzer.LibFuzzer.{
  RunnerOptions, Platform, run_args, fuzzer_environment, outcome, exited, exited_without_error,
  success, unexpected_exit, no_finding,
}
use cifuzz.Fuzzer.Jazzer.{JazzerOptions, jazzer_args, jacoco_args, jazzer_environment}
use cifuzz.Fuzzer.JazzerJs.{JazzerJsRc, set_engine_args_as_jazzer_flags, jazzer_js_environment}
use cifuzz.Fuzzer.LastFlag.{last_flag, run_args-artifact_prefix, jacoco_args-last_flag}
use cifuzz.Fuzzer.Unique.{Keeps, fuzzer_environment-IsUnique}
use cifuzz.Fuzzer.EngineArgs.{SetsEngine, set_engine_args_as_jazzer_flags_lem}
use cifuzz.Tests.JailTests.{machine}

abbrev options : RunnerOptions
options = record {
  dictionary = codes "words.dict";
  engine_args =
      codes "-artifact_prefix=/mine/"
      ∷ codes "-timeout=5"
      ∷ codes "-max_len=9"
      ∷ codes "verbose"
      ∷ [];
  env_vars = codes "ASAN_OPTIONS=exitcode=1" ∷ codes "A=b" ∷ [];
  fuzz_target = codes "/fuzz";
  generated_corpus_dir = codes "/corpus";
  library_dirs = codes "/lib" ∷ [];
  project_dir = codes "/project";
  read_only_bindings = [];
  seed_corpus_dirs = codes "/seeds" ∷ [];
  timeout = 60;
  use_minijail = false;
}

abbrev platform : Platform
platform = record {
  linux = true;
  eval_symlinks = λ path. some path;
  abs = λ path. some path;
  exists = λ path. true;
  mkdir_temp = some (codes "/tmp/out");
  llvm_symbolizer_path = some (codes "/bin/sym");
  getenv = λ name. [];
  visit = λ m. m;
  is_terminal = true;
  plain_style = false;
  machine = machine;
}

abbrev jazzer : JazzerOptions
jazzer = record {
  libfuzzer_options = options;
  autofuzz_target = [];
  target_class = codes "com.Fuzz";
  target_method = codes "test";
  class_paths = codes "a.jar" ∷ codes "b.jar" ∷ [];
}

run_args_example :
    run_args options (codes "/tmp/out")
    ≡ codes "/fuzz"
      ∷ codes "-max_total_time=60"
      ∷ codes "-dict=words.dict"
      ∷ codes "-artifact_prefix=/mine/"
      ∷ codes "-timeout=5"
      ∷ codes "-max_len=9"
      ∷ codes "verbose"
      ∷ codes "/corpus"
      ∷ codes "/seeds"
      ∷ codes "-artifact_prefix=/tmp/out/"
      ∷ []
unfolding run_args
run_args_example = refl

run_args-artifact_prefix_example :
    (last_flag (codes "-artifact_prefix") (run_args options (codes "/tmp/out"))
      ≡ some (codes "/tmp/out/"))
    × (last_flag (codes "-artifact_prefix") (jazzer_args (codes "java") jazzer (codes "/tmp/out"))
        ≡ some (codes "/tmp/out/"))
    × (last_flag
          (codes "-artifact_prefix")
          (jacoco_args (codes "java") jazzer (codes "agent.jar") (codes "exec") (codes "/tmp/out"))
        ≡ some (codes "/tmp/out/"))
run_args-artifact_prefix_example =
    run_args-artifact_prefix options jazzer (codes "java") (codes "agent.jar") (codes "exec")
      (codes "/tmp/out")

jacoco_args-last_flag_example :
    (last_flag
        (codes "--hooks")
        (jacoco_args (codes "java") jazzer (codes "agent.jar") (codes "exec") (codes "/out"))
      ≡ some (codes "false"))
    × (last_flag
          (codes "--keep_going")
          (jacoco_args (codes "java") jazzer (codes "agent.jar") (codes "exec") (codes "/out"))
        ≡ some (codes "2147483647"))
    × (last_flag
          (codes "-max_total_time")
          (jacoco_args (codes "java") jazzer (codes "agent.jar") (codes "exec") (codes "/out"))
        ≡ some (codes "0"))
unfolding has_byte
jacoco_args-last_flag_example =
    jacoco_args-last_flag jazzer (codes "java") (codes "agent.jar") (codes "exec") (codes "/out")
      (refl, tt) (refl, tt)

-- The user's exit code does not last.
environment :
    fuzzer_environment platform options
    ≡ ok (
        codes "ASAN_SYMBOLIZER_PATH=/bin/sym"
        ∷ codes "LLVM_SYMBOLIZER_OPTS=--relativenames"
        ∷ codes "LD_LIBRARY_PATH=/lib"
        ∷ codes "ASAN_OPTIONS=exitcode=78:color=always:log_path=stderr:abort_on_error=0"
        ∷ codes "A=b"
        ∷ codes "UBSAN_OPTIONS=color=always:print_stacktrace=1:log_path=stderr"
        ∷ [])
unfolding fuzzer_environment has_byte set_ld_library_path join split add_env_flags cut
    set_common_ubsan_options has_prefix set_common_asan_options
environment = refl

abbrev rc : JazzerJsRc
rc = record { fuzzer_options = codes "-max_len=4" ∷ codes "-seed=1" ∷ []; timeout = pos 0 }

fuzzer_environment-IsUnique_example :
    Keeps (fuzzer_environment platform options)
    × Keeps (jazzer_environment (some (codes "/java")) options)
    × Keeps (jazzer_js_environment (join (codes ",")) (ok rc) options)
fuzzer_environment-IsUnique_example =
    fuzzer_environment-IsUnique platform options (some (codes "/java")) (join (codes ",")) (ok rc)

abbrev env : List Bytes
env = codes "JAZZER_FUZZ=1" ∷ []

abbrev after : List Bytes
after =
    codes "JAZZER_FUZZ=1"
    ∷ codes "JAZZER_TIMEOUT=5"
    ∷ codes "JAZZER_FUZZER_OPTIONS=-max_len=4,-seed=1,-artifact_prefix=/mine/"
    ∷ []

env-IsUnique : IsUnique env
unfolding occurrences
env-IsUnique key = ground arith

engine_args :
    set_engine_args_as_jazzer_flags (join (codes ",")) rc options.engine_args env ≡ ok after
unfolding set_engine_args_as_jazzer_flags has_byte join has_prefix
engine_args = refl

set_engine_args_as_jazzer_flags_example :
    SetsEngine (join (codes ",")) rc options.engine_args env after
unfolding set_engine_args_as_jazzer_flags has_byte join has_prefix
set_engine_args_as_jazzer_flags_example =
    set_engine_args_as_jazzer_flags_lem (join (codes ",")) rc options.engine_args env after
      env-IsUnique refl

-- The ends of a run
ends :
    (outcome (exited 77) true ≡ success)
    × (outcome (exited 77) false ≡ no_finding 77)
    × (outcome (exited 1) true ≡ unexpected_exit)
    × (outcome exited_without_error false ≡ success)
unfolding outcome
ends = (refl, refl, refl, refl)
