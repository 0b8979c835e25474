-- ===== src/Fuzzer/LastFlag.antt =====
-- The flags that libFuzzer and Jazzer take from a command line: the last one of a name counts.
use cifuzz.Base.{
  ◌≡◌, refl, ap, ◌∙◌, false, Option, none, some, List, [], ◌∷◌, ◌++◌, All, if◌then◌else◌, arith,
}
use cifuzz.Text.{Bytes, codes, bytes_eq, bytes_eq_refl, has_byte, cut}
use cifuzz.Text.Split.{Free, cut-append, cut-eq-none}
use cifuzz.Fuzzer.Flags.{flag}
use cifuzz.Fuzzer.LibFuzzer.{RunnerOptions, run_args, dictionary_args}
use cifuzz.Fuzzer.Jazzer.{
  JazzerOptions, jazzer_args, jacoco_args, directory_args, target_args, corpus_args, jvm_args,
  time_args, coverage_args,
}

unfoldable pub value_if : Bytes → Option (Bytes × Bytes) → Option Bytes
unfolding bytes_eq
value_if name none = none
value_if name (some (key, value)) = if bytes_eq key name then some value else none

abbrev pub or_before : Option Bytes → Option Bytes → Option Bytes
or_before (some value) before = some value
or_before none before = before

-- The value of the last flag with a name
unfoldable pub last_flag : Bytes → List Bytes → Option Bytes
unfolding cut value_if
last_flag name [] = none
last_flag name (arg ∷ args) = or_before (last_flag name args) (value_if name (cut b'=' arg))

last_flag-behind :
    (name value : Bytes) (before args : List Bytes)
    → last_flag name args ≡ some value
    → last_flag name (before ++ args) ≡ some value
unfolding last_flag
last_flag-behind name value [] args h = h
last_flag-behind name value (arg ∷ before) args h =
    ap (λ r. or_before r (value_if name (cut b'=' arg))) (last_flag-behind name value before args h)

-- Arguments that are no flags
abbrev pub NoFlags : List Bytes → Type 0
NoFlags args = All (Free b'=') args

last_flag-NoFlags : (name : Bytes) (args : List Bytes) → NoFlags args → last_flag name args ≡ none
unfolding last_flag value_if
last_flag-NoFlags name [] h = refl
last_flag-NoFlags name (arg ∷ args) h =
    ground (arith, last_flag-NoFlags name args, (cut-eq-none b'=' arg).1)

last_flag-first :
    (name value : Bytes) (args : List Bytes)
    → Free b'=' name
    → last_flag name args ≡ none
    → last_flag name (flag name value ∷ args) ≡ some value
unfolding last_flag value_if
last_flag-first name value args h k =
    ground (arith, cut-append b'=' name value h, bytes_eq_refl name)

artifact_prefix-Free : Free b'=' (codes "-artifact_prefix")
unfolding has_byte
artifact_prefix-Free = refl

directory_args-artifact_prefix :
    (r : RunnerOptions) (output_dir : Bytes)
    → last_flag (codes "-artifact_prefix") (directory_args r output_dir)
      ≡ some (output_dir ++ codes "/")
directory_args-artifact_prefix r output_dir =
    last_flag-behind _ _ (corpus_args r.generated_corpus_dir) _ (
      last_flag-behind _ _ r.seed_corpus_dirs _ (
        last_flag-first (codes "-artifact_prefix") (output_dir ++ codes "/") [] artifact_prefix-Free
          (last_flag-NoFlags _ [] tt)))

-- On the command line of libFuzzer, and on both of Jazzer, the last artifact prefix is the output
-- directory of the run, whatever the arguments of the user are.
pub run_args-artifact_prefix :
    (r : RunnerOptions) (o : JazzerOptions) (java_bin agent_jar output_file output_dir : Bytes)
    → (last_flag (codes "-artifact_prefix") (run_args r output_dir)
        ≡ some (output_dir ++ codes "/"))
      × (last_flag (codes "-artifact_prefix") (jazzer_args java_bin o output_dir)
          ≡ some (output_dir ++ codes "/"))
      × (last_flag
            (codes "-artifact_prefix")
            (jacoco_args java_bin o agent_jar output_file output_dir)
          ≡ some (output_dir ++ codes "/"))
unfolding run_args jazzer_args jacoco_args
run_args-artifact_prefix r o java_bin agent_jar output_file output_dir = (
  last_flag-behind _ _ (_ ∷ _ ∷ []) _ (
      last_flag-behind _ _ (dictionary_args r.dictionary) _ (
        last_flag-behind _ _ r.engine_args _ (
          last_flag-behind _ _ (r.generated_corpus_dir ∷ r.seed_corpus_dirs) _ (
            last_flag-first (codes "-artifact_prefix") (output_dir ++ codes "/") []
              artifact_prefix-Free (last_flag-NoFlags _ [] tt))))),
  last_flag-behind _ _ (java_bin ∷ codes "-cp" ∷ _ ∷ jvm_args) _ (
      last_flag-behind _ _ (_ ∷ target_args o) _ (
        last_flag-behind _ _ (time_args o.libfuzzer_options.timeout) _ (
          last_flag-behind _ _ (dictionary_args o.libfuzzer_options.dictionary) _ (
            last_flag-behind _ _ o.libfuzzer_options.engine_args _
              (directory_args-artifact_prefix o.libfuzzer_options output_dir))))),
  last_flag-behind _ _ (java_bin ∷ _ ∷ codes "-cp" ∷ _ ∷ jvm_args) _ (
      last_flag-behind _ _ (_ ∷ o.libfuzzer_options.engine_args) _ (
        last_flag-behind _ _ (target_args o) _ (
          last_flag-behind _ _ (_ ∷ _ ∷ _ ∷ _ ∷ _ ∷ []) _
            (directory_args-artifact_prefix o.libfuzzer_options output_dir)))),
)

last_flag-append :
    (name : Bytes) (before args : List Bytes)
    → last_flag name args ≡ none
    → last_flag name (before ++ args) ≡ last_flag name before
unfolding last_flag
last_flag-append name [] args h = h
last_flag-append name (arg ∷ before) args h =
    ap (λ r. or_before r (value_if name (cut b'=' arg))) (last_flag-append name before args h)

last_flag-other :
    (name other value : Bytes)
    → Free b'=' other
    → bytes_eq other name ≡ false
    → last_flag name (flag other value ∷ []) ≡ none
unfolding last_flag value_if
last_flag-other name other value h e = ground (arith, cut-append b'=' other value h)

directory_args-none :
    (name : Bytes) (r : RunnerOptions) (output_dir : Bytes)
    → bytes_eq (codes "-artifact_prefix") name ≡ false
    → NoFlags (corpus_args r.generated_corpus_dir)
    → NoFlags r.seed_corpus_dirs
    → last_flag name (directory_args r output_dir) ≡ none
directory_args-none name r output_dir e h k =
    last_flag-append name (corpus_args r.generated_corpus_dir) _ (
      last_flag-append name r.seed_corpus_dirs _ (
        last_flag-other name (codes "-artifact_prefix") (output_dir ++ codes "/")
          artifact_prefix-Free e)
      ∙ last_flag-NoFlags name r.seed_corpus_dirs k)
    ∙ last_flag-NoFlags name (corpus_args r.generated_corpus_dir) h

fixed_value :
    (name value : Bytes) (o : JazzerOptions) (java_bin agent_jar output_file output_dir : Bytes)
    → NoFlags (corpus_args o.libfuzzer_options.generated_corpus_dir)
    → NoFlags o.libfuzzer_options.seed_corpus_dirs
    → bytes_eq (codes "-artifact_prefix") name ≡ false
    → last_flag name coverage_args ≡ some value
    → last_flag name (jacoco_args java_bin o agent_jar output_file output_dir) ≡ some value
unfolding jacoco_args coverage_args
fixed_value name value o java_bin agent_jar output_file output_dir h k e v =
    last_flag-behind _ _ (java_bin ∷ _ ∷ codes "-cp" ∷ _ ∷ jvm_args) _ (
      last_flag-behind _ _ (_ ∷ o.libfuzzer_options.engine_args) _ (
        last_flag-behind _ _ (target_args o) _ (
          last_flag-append name coverage_args _
            (directory_args-none name o.libfuzzer_options output_dir e h k)
          ∙ v)))

-- For coverage Jazzer runs without fuzzing hooks, keeps going, and has no limit of time, whatever the
-- arguments of the user are; where no corpus directory looks like a flag.
pub jacoco_args-last_flag :
    (o : JazzerOptions) (java_bin agent_jar output_file output_dir : Bytes)
    → NoFlags (corpus_args o.libfuzzer_options.generated_corpus_dir)
    → NoFlags o.libfuzzer_options.seed_corpus_dirs
    → (last_flag (codes "--hooks") (jacoco_args java_bin o agent_jar output_file output_dir)
        ≡ some (codes "false"))
      × (last_flag (codes "--keep_going") (jacoco_args java_bin o agent_jar output_file output_dir)
          ≡ some (codes "2147483647"))
      × (last_flag
            (codes "-max_total_time")
            (jacoco_args java_bin o agent_jar output_file output_dir)
          ≡ some (codes "0"))
unfolding last_flag value_if coverage_args bytes_eq
jacoco_args-last_flag o java_bin agent_jar output_file output_dir h k = (
  fixed_value (codes "--hooks") (codes "false") o java_bin agent_jar output_file output_dir h k refl
      refl,
  fixed_value (codes "--keep_going") (codes "2147483647") o java_bin agent_jar output_file
      output_dir h k refl refl,
  fixed_value (codes "-max_total_time") (codes "0") o java_bin agent_jar output_file output_dir h k
      refl refl,
)
