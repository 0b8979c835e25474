-- ===== src/Fuzzer/Flags.antt =====
-- pkg/options: the flags of libFuzzer, Jazzer and Jest.
use cifuzz.Base.{ℕ, Bool, [], ◌∷◌, ◌++◌, if◌then◌else◌}
use cifuzz.Text.{Bytes, codes}
use cifuzz.Text.Decimal.{decimal}

abbrev pub flag : Bytes → Bytes → Bytes
flag name value = name ++ (b'=' ∷ value)

-- The format `='%s'`
abbrev pub quoted_flag : Bytes → Bytes → Bytes
quoted_flag name value = name ++ (codes "='" ++ (value ++ codes "'"))

-- libfuzzer.go
abbrev pub lib_fuzzer_max_total_time : Bytes
lib_fuzzer_max_total_time = codes "-max_total_time"

abbrev pub lib_fuzzer_dictionary : Bytes
lib_fuzzer_dictionary = codes "-dict"

abbrev pub lib_fuzzer_artifact_prefix : Bytes
lib_fuzzer_artifact_prefix = codes "-artifact_prefix"

abbrev pub lib_fuzzer_max_total_time_flag : Bytes → Bytes
lib_fuzzer_max_total_time_flag value = flag lib_fuzzer_max_total_time value

abbrev pub lib_fuzzer_dictionary_flag : Bytes → Bytes
lib_fuzzer_dictionary_flag value = flag lib_fuzzer_dictionary value

abbrev pub lib_fuzzer_artifact_prefix_flag : Bytes → Bytes
lib_fuzzer_artifact_prefix_flag value = flag lib_fuzzer_artifact_prefix value

-- jazzer.go
abbrev pub jazzer_main_class : Bytes
jazzer_main_class = codes "com.code_intelligence.jazzer.Jazzer"

abbrev pub jazzer_target_class_flag : Bytes → Bytes
jazzer_target_class_flag value = flag (codes "--target_class") value

abbrev pub jazzer_target_method_flag : Bytes → Bytes
jazzer_target_method_flag value = flag (codes "--target_method") value

abbrev pub jazzer_auto_fuzz_flag : Bytes → Bytes
jazzer_auto_fuzz_flag value = flag (codes "--autofuzz") value

abbrev pub bool_text : Bool → Bytes
bool_text b = if b then codes "true" else codes "false"

abbrev pub jazzer_hooks_flag : Bool → Bytes
jazzer_hooks_flag value = flag (codes "--hooks") (bool_text value)

abbrev pub jazzer_dedup_flag : Bool → Bytes
jazzer_dedup_flag value = flag (codes "--dedup") (bool_text value)

abbrev pub jazzer_keep_going_flag : ℕ → Bytes
jazzer_keep_going_flag value = flag (codes "--keep_going") (decimal value)

-- node.go
abbrev pub jazzer_js_test_name_pattern_flag : Bytes → Bytes
jazzer_js_test_name_pattern_flag value = quoted_flag (codes "--testNamePattern") value

abbrev pub jazzer_js_test_path_pattern_flag : Bytes → Bytes
jazzer_js_test_path_pattern_flag value = quoted_flag (codes "--testPathPattern") value

abbrev pub jazzer_js_reporters_flag : Bytes → Bytes
jazzer_js_reporters_flag [] = codes "--reporters"
jazzer_js_reporters_flag (c ∷ value) = quoted_flag (codes "--reporters") (c ∷ value)

abbrev pub jazzer_js_coverage_directory_flag : Bytes → Bytes
jazzer_js_coverage_directory_flag value = quoted_flag (codes "--coverageDirectory") value

abbrev pub jazzer_js_coverage_reporters_flag : Bytes → Bytes
jazzer_js_coverage_reporters_flag value = quoted_flag (codes "--coverageReporters") value

abbrev pub jest_test_failure_exit_code_flag : ℕ → Bytes
jest_test_failure_exit_code_flag value = quoted_flag (codes "--testFailureExitCode") (decimal value)
