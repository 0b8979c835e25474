-- ===== src/Parser/ErrorId.antt =====
-- pkg/parser/errorid/errorid.go: the id of a finding by the first matcher that its details match.
use cifuzz.Base.{Bool, false, ◌||◌, List, [], ◌∷◌, ◌++◌, if◌then◌else◌}
use Prim.Native.String.{String}
use cifuzz.Text.{Bytes, codes, contains}
use cifuzz.Regex.{Regex, alt, text, some_of, optional, ◌⨾◌, digit, word, any, match_string}

pub record Matcher : Type 0 where
  pub id : Bytes
  pub substrings : List Bytes
  pub regexs : List Regex

unfoldable pub any_substring : List Bytes → Bytes → Bool
unfolding contains
any_substring [] input = false
any_substring (substring ∷ substrings) input =
    contains input substring || any_substring substrings input

unfoldable pub any_regex : List Regex → Bytes → Bool
any_regex [] input = false
any_regex (regex ∷ regexs) input = match_string regex input || any_regex regexs input

-- `Match`
unfoldable pub matches : Matcher → Bytes → Bool
unfolding any_substring any_regex
matches m input = any_substring m.substrings input || any_regex m.regexs input

abbrev substring_matcher : String → String → Matcher
substring_matcher id substring = record {
  id = codes id;
  substrings = codes substring ∷ [];
  regexs = [];
}

abbrev regex_matcher : String → Regex → Matcher
regex_matcher id regex = record { id = codes id; substrings = []; regexs = regex ∷ [] }

-- The matchers that name one error
abbrev pub specific_matchers : List Matcher
specific_matchers =
    substring_matcher "alloc_dealloc_mismatch" "attempting free on address which was not malloc"
    ∷ substring_matcher "deadly_signal" "deadly signal"
    ∷ substring_matcher "double_free" "attempting double-free on"
    ∷ substring_matcher "heap_buffer_overflow" "heap-buffer-overflow on address"
    ∷ substring_matcher "heap_use_after_free" "heap-use-after-free on address"
    ∷ substring_matcher "global_buffer_overflow" "global-buffer-overflow on address"
    ∷ substring_matcher "java_assertion_error" "Java Assertion Error"
    ∷ regex_matcher "out_of_bounds"
        (text "undefined behavior: index " ⨾ some_of digit ⨾ text " out of bounds")
    ∷ substring_matcher "java_out_of_bounds" "java.lang.ArrayIndexOutOfBoundsException"
    ∷ substring_matcher "ldap_injection" "Security Issue: LDAP Injection"
    ∷ substring_matcher "load_arbitrary_library" "Security Issue: load arbitrary library"
    ∷ substring_matcher "memory_leak" "detected memory leaks"
    ∷ substring_matcher "negative_array_size" "java.lang.NegativeArraySizeException"
    ∷ substring_matcher "null_pointer" "java.lang.NullPointerException"
    ∷ substring_matcher "number_format" "java.lang.NumberFormatException"
    ∷ substring_matcher "os_command_injection" "Command Injection"
    ∷ substring_matcher "out_of_memory" "out-of-memory"
    ∷ substring_matcher "regex_injection" "Security Issue: Regular Expression Injection"
    ∷ substring_matcher "remote_code_execution" "Security Issue: Remote Code Execution"
    ∷ substring_matcher "segmentation_fault" "SEGV on unknown address"
    ∷ substring_matcher "signed_integer_overflow" "undefined behavior: signed integer overflow"
    ∷ substring_matcher "slow_input" "Slow input detected. Processing time:"
    ∷ substring_matcher "stack_buffer_overflow" "stack-buffer-overflow on address"
    ∷ substring_matcher "stack_exhaustion" "stack-overflow on address"
    ∷ substring_matcher "sql_injection" "Security Issue: SQL Injection"
    ∷ record {
      id = codes "timeout";
      substrings = codes "timeout" ∷ [];
      regexs = (text "timeout after " ⨾ some_of digit ⨾ text " " ⨾ some_of word) ∷ [];
    }
    ∷ regex_matcher "shift_exponent"
        (text "undefined behavio" ⨾ optional (text "u") ⨾ text "r: shift exponent" ⨾ some_of any)
    ∷ substring_matcher "use_after_return" "stack-use-after-return on address"
    ∷ substring_matcher "use_after_scope" "stack-use-after-scope on address"
    ∷ substring_matcher "use_of_uninitialized_value" "use-of-uninitialized-value"
    ∷ substring_matcher "xpath_injection" "Security Issue: XPath Injection"
    ∷ substring_matcher "File Path Injection" "Path Traversal"
    ∷ substring_matcher "prototype_pollution" "Prototype Pollution"
    ∷ substring_matcher "server_side_request_forgery" "Security Issue: Server Side Request Forgery"
    ∷ []

-- The matchers for whole classes of errors, behind the others
abbrev pub global_matchers : List Matcher
global_matchers =
    regex_matcher "java_exception" (alt (text "java.lang" ⨾ some_of any) (text "Exception"))
    ∷ substring_matcher "jazzer_security_issue" "Security Issue:"
    ∷ regex_matcher "Crash" (alt (text "Error") (text "Crash"))
    ∷ []

-- The loop of `ForFinding`; no match is logged and gives "".
unfoldable pub first_match : List Matcher → Bytes → Bytes
unfolding matches
first_match [] details = []
first_match (m ∷ matchers) details =
    let rest = first_match matchers details in if matches m details then m.id else rest

-- `ForFinding`, on the details of the finding
unfoldable pub for_finding : Bytes → Bytes
unfolding first_match
for_finding details = first_match (specific_matchers ++ global_matchers) details
