-- ===== src/Parser/Patterns.antt =====
-- The patterns of pkg/parser/libfuzzer/libfuzzer.go, sanitizer_parser.go and
-- pkg/minijail/output_filter.go. `g` is a named group.
use cifuzz.Base.{not, ◌==◌}
use Prim.Native.String.{String}
use cifuzz.Text.{codes}
use cifuzz.Regex.{
  Regex, one_of, alt, many, group, text_start, text_end, text, some_of, optional, ◌⨾◌, digit, word,
  space, non_space, any,
}

abbrev g : String → Regex → Regex
g name r = group (codes name) r

-- `==\d+==`
abbrev process : Regex
process = text "==" ⨾ some_of digit ⨾ text "=="

abbrev pub non_empty_corpus_pattern : Regex
non_empty_corpus_pattern =
    text "INFO: seed corpus: files: "
    ⨾ g "num_seeds" (some_of digit)
    ⨾ text " min: "
    ⨾ g "min_size" (some_of word)
    ⨾ text " max: "
    ⨾ g "max_size" (some_of word)
    ⨾ text " total: "
    ⨾ g "total_size" (some_of word)
    ⨾ text " rss: "
    ⨾ g "peak_rss" (some_of word)

abbrev pub empty_corpus_pattern : Regex
empty_corpus_pattern = text "INFO: A corpus is not provided, starting from an empty corpus"

abbrev pub libfuzzer_timeout_error_pattern : Regex
libfuzzer_timeout_error_pattern =
    text "ALARM: working on the last Unit for "
    ⨾ g "timeout_seconds" (some_of digit)
    ⨾ text " seconds"

abbrev pub libfuzzer_error_pattern : Regex
libfuzzer_error_pattern = process ⨾ text " ERROR: libFuzzer: " ⨾ g "error_type" (some_of any)

abbrev pub jazzer_security_issue_pattern : Regex
jazzer_security_issue_pattern =
    text "== Java Exception:"
    ⨾ many any
    ⨾ text "com"
    ⨾ one_of any
    ⨾ text "code_intelligence"
    ⨾ one_of any
    ⨾ text "jazzer"
    ⨾ one_of any
    ⨾ text "api"
    ⨾ one_of any
    ⨾ text "FuzzerSecurityIssue"
    ⨾ g "type" (alt (text "Low") (alt (text "Medium") (alt (text "High") (text "Critical"))))
    ⨾ text ":"
    ⨾ many space
    ⨾ g "message" (many any)
    ⨾ text_end

abbrev pub java_exception_error_pattern : Regex
java_exception_error_pattern = text "== Java Exception:" ⨾ many space ⨾ g "error_type" (many any)

abbrev pub java_assertion_error_pattern : Regex
java_assertion_error_pattern = text "== Java Assertion Error"

abbrev pub jazzer_input_path_pattern : Regex
jazzer_input_path_pattern = text "INFO: using inputs from: " ⨾ g "input_path" (many any) ⨾ text_end

abbrev pub jazzer_js_exception_error_pattern : Regex
jazzer_js_exception_error_pattern =
    process ⨾ text " Uncaught Exception: " ⨾ g "message" (some_of any)

abbrev pub jazzer_js_command_injection_pattern : Regex
jazzer_js_command_injection_pattern = process ⨾ text " Command Injection"

abbrev pub jazzer_js_path_traversal_pattern : Regex
jazzer_js_path_traversal_pattern = process ⨾ text " Path Traversal"

abbrev pub jazzer_js_prototype_pollution_pattern : Regex
jazzer_js_prototype_pollution_pattern = process ⨾ text " Prototype Pollution"

abbrev pub beginning_of_jest_report_pattern : Regex
beginning_of_jest_report_pattern = text "FAIL Jazzer.js"

abbrev pub stats_pattern : Regex
stats_pattern =
    text "#"
    ⨾ g "total_execs" (some_of digit)
    ⨾ some_of space
    ⨾ g "status" (many non_space)
    ⨾ some_of space
    ⨾ optional (text "cov:" ⨾ some_of space ⨾ g "edges" (some_of digit) ⨾ some_of space)
    ⨾ text "ft:"
    ⨾ some_of space
    ⨾ g "features" (some_of digit)
    ⨾ some_of space
    ⨾ text "corp:"
    ⨾ some_of space
    ⨾ g "corpus_size" (some_of digit)
    ⨾ text "/"
    ⨾ many any
    ⨾ text "exec/s:"
    ⨾ some_of space
    ⨾ g "executions_per_second" (some_of digit)
    ⨾ some_of space

abbrev pub test_input_file_pattern : Regex
test_input_file_pattern = text "Test unit written to" ⨾ many space ⨾ g "test_input_file" (many any)

abbrev pub slow_input_pattern : Regex
slow_input_pattern =
    many space ⨾ text "Slowest unit: " ⨾ g "duration" (some_of digit) ⨾ text " s" ⨾ many any

abbrev pub go_panic_pattern : Regex
go_panic_pattern = text_start ⨾ text "panic:" ⨾ some_of space ⨾ some_of non_space

-- sanitizer_parser.go
abbrev pub error_pattern : Regex
error_pattern =
    process
    ⨾ many space
    ⨾ alt (text "ERROR") (text "WARNING")
    ⨾ text ":"
    ⨾ many any
    ⨾ text "Sanitizer:"
    ⨾ one_of space
    ⨾ g "error_type" (some_of any)

abbrev pub runtime_error_start_pattern : Regex
runtime_error_start_pattern =
    some_of non_space ⨾ text " runtime error: " ⨾ g "error_type" (some_of (λ c. not (c == b':')))

abbrev pub fatal_error_pattern : Regex
fatal_error_pattern = process ⨾ many any ⨾ text "Sanitizer" ⨾ many any ⨾ text "fatal error."

-- output_filter.go
abbrev pub ignored_pattern : Regex
ignored_pattern =
    text_start
    ⨾ text "libminijail["
    ⨾ some_of digit
    ⨾ text "]: child process "
    ⨾ some_of digit
    ⨾ text " exited with status "
    ⨾ some_of digit
