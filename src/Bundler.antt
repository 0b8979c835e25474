-- ===== src/Bundler.antt =====
-- internal/bundler/opts.go: the validation of the options, with ValidateCorpusDirs and
-- EvaluateBazelTargetPatterns of internal/cmdutils.
pub mod Blame
pub mod ValidOpts
use cifuzz.Base.{
  ℕ, zero, suc, Bool, true, false, Option, none, some, List, [], ◌∷◌, ◌++◌, if◌then◌else◌, ltb,
}
use cifuzz.Base.Int.{ℤ, pos, negsuc}
use cifuzz.Base.Result.{Result, ok, err, ◌>>=◌}
use cifuzz.Text.{Bytes, codes, bytes_eq, has_byte, has_prefix, split}
use cifuzz.Slices.{bytes_comparable, remove_duplicates}
use cifuzz.Parser.Detect.{trim_space}
use cifuzz.Store.CopyInput.{replace_all}

-- The fields of `Opts` that the validation depends on; the timeout is in nanoseconds.
pub record Opts : Type 0 where
  pub build_command : Bytes
  pub build_system : Bytes
  pub dictionary : Bytes
  pub env : List Bytes
  pub seed_corpus_dirs : List Bytes
  pub timeout : ℤ
  pub fuzz_tests : List Bytes

-- The outcomes of `os.Stat`
pub data Stat : Type 0 where
  found not_exist stat_error : Stat

-- What the validation asks of the machine; `none` is an error.
pub record Surroundings : Type 0 where
  pub stat : Bytes → Stat
  pub abs : Bytes → Option Bytes
  pub getenv : Bytes → Bytes
  pub bazel_query : Bytes → Option Bytes

pub data OptsError : Type 0 where
  dir_missing dir_inaccessible abs_failed dictionary_inaccessible : Bytes → OptsError
  no_fuzz_test query_failed no_build_command : OptsError
  no_targets : List Bytes → OptsError
  short_timeout : ℤ → OptsError

-- One round of the loop over the directories, by what `os.Stat` and `filepath.Abs` return
abbrev pub dir_result : Bytes → Stat → Option Bytes → Result OptsError Bytes
dir_result d not_exist absolute = err (dir_missing d)
dir_result d stat_error absolute = err (dir_inaccessible d)
dir_result d found none = err (abs_failed d)
dir_result d found (some absolute) = ok absolute

-- `ValidateCorpusDirs`
unfoldable pub validate_corpus_dirs : Surroundings → List Bytes → Result OptsError (List Bytes)
validate_corpus_dirs p [] = ok []
validate_corpus_dirs p (d ∷ dirs) =
    let rest = validate_corpus_dirs p dirs in
    dir_result d (p.stat d) (p.abs d) >>= λ absolute. rest >>= λ others. ok (absolute ∷ others)

-- The loop over the patterns behind the first
unfoldable pub multi_pattern : Bytes → List Bytes → Bytes
unfolding has_prefix
multi_pattern so_far [] = so_far
multi_pattern so_far (pattern_ ∷ patterns) =
    multi_pattern
      (so_far
        ++ (if has_prefix pattern_ (codes "-")
            then codes " " ++ pattern_
            else codes " +" ++ pattern_))
      patterns

abbrev pub query_of : Bytes → Bytes
query_of targets =
    codes "kind(fuzzing_regression_test, attr(generator_function, cc_fuzz_test, "
    ++ (targets ++ codes "))")

-- The loop over the lines of the output
unfoldable pub labels : List Bytes → List Bytes
unfolding bytes_eq
labels [] = []
labels (line ∷ lines) =
    let rest = labels lines in
    if bytes_eq (trim_space line) [] then rest else trim_space line ∷ rest

unfoldable pub labels_in : Option Bytes → Result OptsError (List Bytes)
unfolding labels
labels_in none = err query_failed
labels_in (some out) =
    ok (labels (split b'\n' (replace_all (trim_space out) (codes "\r\n") (codes "\n"))))

-- `EvaluateBazelTargetPatterns` of a first pattern and the others
unfoldable pub evaluate_bazel_target_patterns :
    Surroundings → Bytes → List Bytes → Result OptsError (List Bytes)
unfolding multi_pattern labels_in
evaluate_bazel_target_patterns p first others =
    labels_in (p.bazel_query (query_of (multi_pattern first others)))

abbrev pub dictionary_result : Bytes → Stat → Result {0, 0} OptsError Unit
dictionary_result dictionary found = ok tt
dictionary_result dictionary _ = err (dictionary_inaccessible dictionary)

unfoldable pub check_dictionary : Surroundings → Bytes → Result {0, 0} OptsError Unit
unfolding bytes_eq
check_dictionary p dictionary =
    if bytes_eq dictionary [] then ok tt else dictionary_result dictionary (p.stat dictionary)

unfoldable pub some_targets : List Bytes → List Bytes → Result OptsError (List Bytes)
some_targets patterns [] = err (no_targets patterns)
some_targets patterns (target ∷ targets) = ok (target ∷ targets)

unfoldable pub bazel_tests : Surroundings → List Bytes → Result OptsError (List Bytes)
unfolding evaluate_bazel_target_patterns some_targets
bazel_tests p [] = err no_fuzz_test
bazel_tests p (first ∷ others) =
    evaluate_bazel_target_patterns p first others >>= some_targets (first ∷ others)

-- The fuzz tests, by the build system
unfoldable pub fuzz_tests_of : Surroundings → Bytes → List Bytes → Result OptsError (List Bytes)
unfolding bytes_eq bazel_tests
fuzz_tests_of p build_system fuzz_tests =
    if bytes_eq build_system (codes "bazel") then bazel_tests p fuzz_tests else ok fuzz_tests

unfoldable pub some_test : List Bytes → Result {0, 0} OptsError Unit
some_test [] = err no_fuzz_test
some_test (t ∷ ts) = ok tt

unfoldable pub check_other : Bytes → Bytes → List Bytes → Result {0, 0} OptsError Unit
unfolding bytes_eq some_test
check_other build_system build_command fuzz_tests =
    if bytes_eq build_system (codes "other")
    then if bytes_eq build_command [] then err no_build_command else some_test fuzz_tests
    else ok tt

-- `timeout != 0 && timeout < time.Second`
abbrev pub is_short : ℤ → Bool
is_short (pos zero) = false
is_short (pos (suc n)) = ltb (suc n) 1000000000
is_short (negsuc n) = true

unfoldable pub check_timeout : ℤ → Result {0, 0} OptsError Unit
check_timeout timeout = if is_short timeout then err (short_timeout timeout) else ok tt

-- The loop over the environment variables: a name alone takes its value from the current environment.
unfoldable pub resolve_env : Surroundings → List Bytes → List Bytes
unfolding has_byte bytes_eq
resolve_env p [] = []
resolve_env p (e ∷ env) =
    let rest = resolve_env p env in
    if has_byte b'=' e
    then e ∷ rest
    else if bytes_eq (p.getenv e) []
    then rest
    else (e ++ (codes "=" ++ p.getenv e)) ∷ rest

-- The rest of `Validate`, from the directories on, and from the fuzz tests on
unfoldable pub with_tests : Surroundings → Opts → List Bytes → List Bytes → Result OptsError Opts
unfolding resolve_env check_other check_timeout
with_tests p opts dirs tests = check_other opts.build_system opts.build_command tests >>= λ u.
    check_timeout opts.timeout >>= λ u.
    ok (record opts { seed_corpus_dirs = dirs; fuzz_tests = tests; env = resolve_env p opts.env })

unfoldable pub with_dirs : Surroundings → Opts → List Bytes → Result OptsError Opts
unfolding remove_duplicates check_dictionary fuzz_tests_of with_tests
with_dirs p opts dirs = check_dictionary p opts.dictionary >>= λ u.
    fuzz_tests_of p opts.build_system (remove_duplicates opts.fuzz_tests) >>= with_tests p opts dirs

-- `Validate`
unfoldable pub validate : Surroundings → Opts → Result OptsError Opts
unfolding validate_corpus_dirs with_dirs
validate p opts = validate_corpus_dirs p opts.seed_corpus_dirs >>= with_dirs p opts
