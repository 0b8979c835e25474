-- ===== src/Parser/Sanitizer.antt =====
-- pkg/parser/sanitizer/sanitizer_parser.go
use cifuzz.Base.{Option, none, some, [], ◌∷◌, ◌++◌, if◌then◌else◌}
use cifuzz.Text.{Bytes, codes}
use cifuzz.Regex.{find_named_groups_match, match_string, group_text}
use cifuzz.Parser.Finding.{Finding, crash, runtime_error, new_finding}
use cifuzz.Parser.Patterns.{error_pattern, runtime_error_start_pattern, fatal_error_pattern}

-- `parseAsRuntimeReport`
unfoldable pub parse_as_runtime_report : Bytes → Option Finding
parse_as_runtime_report log = elim (find_named_groups_match runtime_error_start_pattern log) [
  | none ↦ none
  | some result ↦ some (
      new_finding runtime_error
        (codes "undefined behavior: " ++ group_text (codes "error_type") result) (log ∷ []))
]

-- `parseAsErrorReport`
unfoldable pub parse_as_error_report : Bytes → Option Finding
parse_as_error_report log = elim (find_named_groups_match error_pattern log) [
  | none ↦ none
  | some result ↦ some (new_finding crash (group_text (codes "error_type") result) (log ∷ []))
]

-- `parseAsFatalErrorReport`: a finding without details
unfoldable pub parse_as_fatal_error_report : Bytes → Option Finding
parse_as_fatal_error_report log =
    if match_string fatal_error_pattern log then some (new_finding crash [] (log ∷ [])) else none

abbrev pub or_finding : Option Finding → Option Finding → Option Finding
or_finding (some f) o = some f
or_finding none o = o

-- `ParseAsFinding`: the first parser that finds something
unfoldable pub parse_as_finding : Bytes → Option Finding
unfolding parse_as_runtime_report parse_as_error_report parse_as_fatal_error_report
parse_as_finding line =
    or_finding (parse_as_runtime_report line)
      (or_finding (parse_as_error_report line) (parse_as_fatal_error_report line))
