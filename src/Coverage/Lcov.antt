-- ===== src/Coverage/Lcov.antt =====
-- `ParseLCOVFileIntoLCOVReport` and `ParseLCOVReportIntoSummary` of lcov.go.
use cifuzz.Base.{Bool, none, some, List, [], ◌∷◌, ◌++◌, map, if◌then◌else◌}
use cifuzz.Base.Int.{ℤ, pos}
use cifuzz.Base.Result.{Result, ok, err, ◌>>=◌}
use cifuzz.Text.{Bytes, codes, bytes_eq, cut, split}
use cifuzz.Text.Decimal.{atoi}
use cifuzz.Text.Scanner.{scan}
use cifuzz.Coverage.{
  Overview, SourceFile, LcovReport, FileCoverage, Summary, no_overview, no_source_file,
  add_overview,
}

pub data LcovError : Type 0 where
  invalid_format : Bytes → LcovError
  failed_parsing : Bytes → LcovError
  scan_failed : LcovError

-- The variables of the loop
pub record LcovState : Type 0 where
  pub report : LcovReport
  pub current : SourceFile

abbrev pub update_current : LcovState → SourceFile → LcovState
update_current s sf = record s { current = sf }

-- `strconv.Atoi`, and the wrapped error with the line
unfoldable pub parse_int : Bytes → Bytes → Result LcovError ℤ
parse_int line v = elim (atoi v) [ none ↦ err (failed_parsing line) | some n ↦ ok n ]

-- The cases "LF" to "BRH": a number goes into one field of the overview.
unfoldable pub parse_count :
    Bytes → Bytes → LcovState → (Overview → ℤ → Overview) → Result LcovError LcovState
unfolding parse_int
parse_count line v s put = do
  n ← parse_int line v
  ok (update_current s (record s.current { overview = put s.current.overview n }))

-- `case "FN"`
unfoldable pub parse_fn : Bytes → List Bytes → LcovState → Result LcovError LcovState
unfolding parse_int
parse_fn line (number ∷ name ∷ []) s = do
  l ← parse_int line number
  ok (
      update_current s (record s.current {
        function_information =
            s.current.function_information ++ (record { name = name; line = l } ∷ []);
      }))
parse_fn line _ s = err (invalid_format line)

-- `case "FNDA"`
unfoldable pub parse_fnda : Bytes → List Bytes → LcovState → Result LcovError LcovState
unfolding parse_int
parse_fnda line (number ∷ name ∷ []) s = do
  e ← parse_int line number
  ok (
      update_current s (record s.current {
        function_executions =
            s.current.function_executions ++ (record { name = name; executions = e } ∷ []);
      }))
parse_fnda line _ s = err (invalid_format line)

abbrev add_line_information : Bytes → Bytes → Bytes → LcovState → Result LcovError LcovState
add_line_information line number count s = do
  l ← parse_int line number
  e ← parse_int line count
  ok (
      update_current s (record s.current {
        line_information =
            s.current.line_information ++ (record { number = l; executions = e } ∷ []);
      }))

-- `case "DA"`: a third value, the checksum, is ignored.
unfoldable pub parse_da : Bytes → List Bytes → LcovState → Result LcovError LcovState
unfolding parse_int
parse_da line (number ∷ count ∷ []) s = add_line_information line number count s
parse_da line (number ∷ count ∷ checksum ∷ []) s = add_line_information line number count s
parse_da line _ s = err (invalid_format line)

-- `case "BRDA"`: "-" stands for no execution.
unfoldable pub parse_brda : Bytes → List Bytes → LcovState → Result LcovError LcovState
unfolding parse_int bytes_eq
parse_brda line (number ∷ block ∷ branch ∷ taken ∷ []) s = do
  l ← parse_int line number
  bl ← parse_int line block
  br ← parse_int line branch
  e ← (if bytes_eq taken (codes "-") then ok (pos 0) else parse_int line taken)
  ok (
      update_current s (record s.current {
        branch_information =
            s.current.branch_information
            ++ (record { line = l; block = bl; number = br; executions = e } ∷ []);
      }))
parse_brda line _ s = err (invalid_format line)

-- The switch on the prefix; a prefix that it does not name is passed over.
unfoldable pub parse_record : Bytes → Bytes → Bytes → LcovState → Result LcovError LcovState
unfolding parse_count parse_fn parse_fnda parse_da parse_brda
parse_record line prefix v s =
    if bytes_eq prefix (codes "SF")
    then ok (update_current s (record s.current { name = v }))
    else if bytes_eq prefix (codes "LF")
    then parse_count line v s (λ o n. record o { lines_found = n })
    else if bytes_eq prefix (codes "LH")
    then parse_count line v s (λ o n. record o { lines_hit = n })
    else if bytes_eq prefix (codes "FNF")
    then parse_count line v s (λ o n. record o { functions_found = n })
    else if bytes_eq prefix (codes "FNH")
    then parse_count line v s (λ o n. record o { functions_hit = n })
    else if bytes_eq prefix (codes "BRF")
    then parse_count line v s (λ o n. record o { branches_found = n })
    else if bytes_eq prefix (codes "BRH")
    then parse_count line v s (λ o n. record o { branches_hit = n })
    else if bytes_eq prefix (codes "FN")
    then parse_fn line (split b',' v) s
    else if bytes_eq prefix (codes "FNDA")
    then parse_fnda line (split b',' v) s
    else if bytes_eq prefix (codes "DA")
    then parse_da line (split b',' v) s
    else if bytes_eq prefix (codes "BRDA")
    then parse_brda line (split b',' v) s
    else ok s

-- The end of a section: the current file joins the report, and a new one begins.
abbrev pub end_record : LcovState → LcovState
end_record s = record {
  report = record { source_files = s.report.source_files ++ (s.current ∷ []) };
  current = no_source_file;
}

-- One round of the loop
unfoldable pub parse_line : Bytes → LcovState → Result LcovError LcovState
unfolding parse_record
parse_line line s =
    if bytes_eq line (codes "end_of_record") then ok (end_record s) else elim (cut b':' line) [
      | none ↦ err (invalid_format line)
      | some (prefix, v) ↦ parse_record line prefix v s
    ]

unfoldable pub parse_lines : List Bytes → LcovState → Result LcovError LcovState
unfolding parse_line
parse_lines [] s = ok s
parse_lines (line ∷ lines) s = parse_line line s >>= λ s'. parse_lines lines s'

abbrev pub initial_state : LcovState
initial_state = record { report = record { source_files = [] }; current = no_source_file }

abbrev pub finish_scan : Bool → LcovState → Result LcovError LcovReport
finish_scan too_long s = if too_long then err scan_failed else ok s.report

-- `ParseLCOVFileIntoLCOVReport`; a line that is too long ends the loop and is then reported.
unfoldable pub parse_lcov_file_into_lcov_report : Bytes → Result LcovError LcovReport
unfolding parse_lines scan
parse_lcov_file_into_lcov_report input =
    parse_lines (scan input).lines initial_state >>= finish_scan (scan input).too_long

abbrev pub file_coverage : SourceFile → FileCoverage
file_coverage sf = record { filename = sf.name; coverage = sf.overview }

unfoldable pub total_of : Overview → List FileCoverage → Overview
total_of total [] = total
total_of total (f ∷ files) = total_of (add_overview total f.coverage) files

-- `ParseLCOVReportIntoSummary` behind the parser
unfoldable pub summarize : LcovReport → Summary
unfolding total_of
summarize report =
    let files = map file_coverage report.source_files in
    record { total = total_of no_overview files; files = files }

unfoldable pub parse_lcov_report_into_summary : Bytes → Result LcovError Summary
unfolding parse_lcov_file_into_lcov_report summarize
parse_lcov_report_into_summary input = do
  report ← parse_lcov_file_into_lcov_report input
  ok (summarize report)
