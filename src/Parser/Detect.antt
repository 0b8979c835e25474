-- ===== src/Parser/Detect.antt =====
-- How a line becomes a finding: the `parseAs…` methods of libfuzzer.go.
use cifuzz.Base.{ℕ, Bool, not, ◌&&◌, Option, none, some, [], ◌∷◌, ◌++◌, ◌==◌, ◌||◌, if◌then◌else◌}
use mathlib.Core.List.{reverse}
use cifuzz.Text.{Bytes, codes, bytes_eq, has_prefix}
use cifuzz.Regex.{find_named_groups_match, match_string, group_text}
use cifuzz.Parser.Finding.{Finding, crash, warning, new_finding, get_details}
use cifuzz.Parser.Patterns.{
  libfuzzer_timeout_error_pattern, libfuzzer_error_pattern, jazzer_security_issue_pattern,
  java_exception_error_pattern, java_assertion_error_pattern, jazzer_js_exception_error_pattern,
  jazzer_js_command_injection_pattern, jazzer_js_path_traversal_pattern,
  jazzer_js_prototype_pollution_pattern, beginning_of_jest_report_pattern, slow_input_pattern,
  go_panic_pattern,
}
use cifuzz.Parser.Sanitizer.{or_finding, parse_as_finding}

abbrev is_blank : ℕ → Bool
is_blank c = c == 9 || c == 10 || c == 11 || c == 12 || c == 13 || c == 32

trim_left : Bytes → Bytes
trim_left [] = []
trim_left (c ∷ s) = let rest = trim_left s in if is_blank c then rest else c ∷ s

-- `strings.TrimSpace`, for the blanks in ASCII
unfoldable pub trim_space : Bytes → Bytes
unfolding trim_left
trim_space s = reverse (trim_left (reverse (trim_left s)))

abbrev pub go_panic : Bytes
go_panic = codes "Go Panic"

-- `parseAsGoFinding`
unfoldable pub parse_as_go_finding : Bytes → Option Finding
parse_as_go_finding line =
    if match_string go_panic_pattern line
    then some (new_finding crash go_panic (line ∷ []))
    else none

-- `parseAsSlowInput`
unfoldable pub parse_as_slow_input : Bytes → Option Finding
parse_as_slow_input log = elim (find_named_groups_match slow_input_pattern log) [
  | none ↦ none
  | some res ↦ some (
      new_finding warning
        (codes "Slow input detected. Processing time: "
          ++ (group_text (codes "duration") res ++ codes " s"))
        ((codes "Slow input: "
            ++ (group_text (codes "duration") res ++ codes " seconds for processing"))
          ∷ []))
]

-- `parseAsLibfuzzerFinding` behind the match of the "ERROR:" line
unfoldable pub libfuzzer_error : Bytes → Bytes → Bytes → Option Finding
unfolding has_prefix
libfuzzer_error pending_details error_type line =
    if has_prefix error_type (codes "timeout")
    then none
    else if has_prefix error_type (codes "out-of-memory")
        && has_prefix pending_details (codes "out-of-memory")
    then none
    else some (new_finding crash error_type (line ∷ []))

-- `parseAsLibfuzzerFinding`, given the details of the pending finding
unfoldable pub parse_as_libfuzzer_finding : Bytes → Bytes → Option Finding
unfolding libfuzzer_error
parse_as_libfuzzer_finding pending_details line =
    elim (find_named_groups_match libfuzzer_timeout_error_pattern line) [
      | some result ↦ some (
          new_finding crash
            (codes "timeout after "
              ++ (group_text (codes "timeout_seconds") result ++ codes " seconds"))
            (line ∷ []))
      | none ↦ elim (find_named_groups_match libfuzzer_error_pattern line) [
        | some result ↦
            libfuzzer_error pending_details (group_text (codes "error_type") result) line
        | none ↦ none
      ]
    ]

-- `parseAsJazzerFinding`
unfoldable pub parse_as_jazzer_finding : Bytes → Option Finding
unfolding trim_space
parse_as_jazzer_finding line = elim (find_named_groups_match jazzer_security_issue_pattern line) [
  | some matches ↦ some (
      new_finding crash
        (codes "Security Issue: " ++ trim_space (group_text (codes "message") matches)) (line ∷ []))
  | none ↦
      if match_string java_assertion_error_pattern line
      then some (new_finding warning (codes "Java Assertion Error") (line ∷ []))
      else elim (find_named_groups_match java_exception_error_pattern line) [
        | some matches ↦
            some (new_finding warning (group_text (codes "error_type") matches) (line ∷ []))
        | none ↦ none
      ]
]

-- `parseAsJazzerJSFinding` behind the test for the Jest report
unfoldable pub parse_as_jazzer_js_error : Bytes → Option Finding
parse_as_jazzer_js_error line =
    elim (find_named_groups_match jazzer_js_exception_error_pattern line) [
      | some result ↦ some (new_finding warning (group_text (codes "message") result) (line ∷ []))
      | none ↦
          if match_string jazzer_js_command_injection_pattern line
          then some (new_finding warning (codes "Command Injection") (line ∷ []))
          else if match_string jazzer_js_path_traversal_pattern line
          then some (new_finding warning (codes "Path Traversal") (line ∷ []))
          else if match_string jazzer_js_prototype_pollution_pattern line
          then some (new_finding warning (codes "Prototype Pollution") (line ∷ []))
          else none
    ]

-- Whether the line begins the Jest report; such a line is no finding of JazzerJS.
unfoldable pub begins_jest_report : Bytes → Bool
begins_jest_report line = match_string beginning_of_jest_report_pattern line

unfoldable pub parse_as_jazzer_js_finding : Bytes → Option Finding
unfolding begins_jest_report parse_as_jazzer_js_error
parse_as_jazzer_js_finding line =
    if begins_jest_report line then none else parse_as_jazzer_js_error line

-- A libFuzzer error is part of a pending JazzerJS finding.
abbrev pub unless_js_pending : Bool → Option Finding → Option Finding → Option Finding
unless_js_pending js none found = found
unless_js_pending js (some p) found = if js then none else found

-- The end of `parseAsNewFinding`, behind `parseAsLibfuzzerFinding`
unfoldable pub parse_other_findings : Bytes → Option Finding
unfolding parse_as_finding parse_as_slow_input
parse_other_findings line = or_finding (parse_as_finding line) (parse_as_slow_input line)

abbrev pub libfuzzer_or_other : Bool → Option Finding → Option Finding → Bytes → Option Finding
libfuzzer_or_other js pending none line = parse_other_findings line
libfuzzer_or_other js pending (some f) line = unless_js_pending js pending (some f)

-- `parseAsNewFinding`
unfoldable pub parse_as_new_finding : Bool → Bool → Option Finding → Bytes → Option Finding
unfolding parse_as_jazzer_finding parse_as_jazzer_js_finding parse_as_go_finding
    parse_as_libfuzzer_finding
parse_as_new_finding jazzer js pending line =
    or_finding (if jazzer then parse_as_jazzer_finding line else none) (
      or_finding (if js then parse_as_jazzer_js_finding line else none) (
        or_finding (parse_as_go_finding line) (
          libfuzzer_or_other js pending (parse_as_libfuzzer_finding (get_details pending) line)
            line)))

-- `libFuzzerErrorFollowingGoPanic`
unfoldable pub libfuzzer_error_following_go_panic : Option Finding → Finding → Bool
unfolding bytes_eq
libfuzzer_error_following_go_panic pending report =
    bytes_eq (get_details pending) go_panic && not (bytes_eq report.details go_panic)
