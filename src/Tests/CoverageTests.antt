-- ===== src/Tests/CoverageTests.antt =====
-- pkg/parser/coverage on a concrete report.
use cifuzz.Base.{◌≡◌, refl, true, [], ◌∷◌, arith}
use cifuzz.Base.Int.{pos, negsuc}
use cifuzz.Base.Result.{ok, err}
use cifuzz.Text.{Bytes, codes, bytes_eq, cut, split, has_byte, has_suffix}
use cifuzz.Text.Decimal.{itoa, atoi}
use cifuzz.Text.Scanner.{drop_cr}
use cifuzz.Coverage.{SourceFile, LcovReport}
use cifuzz.Coverage.Lcov.{
  parse_lcov_file_into_lcov_report, failed_parsing, invalid_format, summarize, file_coverage,
}
use cifuzz.Coverage.Write.{Disk, section_lines, written, lcov_path, write_lcov_report_to_file}
use cifuzz.Coverage.RoundTrip.{IsWritable, parse-write_lcov_report_to_file}
use cifuzz.Coverage.Totals.{Count, count, summarize_lem}

abbrev parser_file : SourceFile
parser_file = record {
  name = codes "/src/parser.c";
  function_information = record { name = codes "main"; line = pos 12 } ∷ [];
  function_executions = record { name = codes "main"; executions = pos 3 } ∷ [];
  line_information = record { number = pos 12; executions = negsuc 0 } ∷ [];
  branch_information =
      record { line = pos 13; block = pos 0; number = pos 1; executions = pos 0 } ∷ [];
  overview = record {
    functions_found = pos 1;
    functions_hit = pos 1;
    lines_found = pos 20;
    lines_hit = pos 5;
    branches_found = pos 2;
    branches_hit = pos 1;
  };
}

abbrev report : LcovReport
report = record { source_files = parser_file ∷ [] }

abbrev good_disk : Disk
good_disk = record { opens = λ path. true; writes = λ n. true }

parser_file-IsWritable : IsWritable parser_file
unfolding section_lines itoa has_byte drop_cr
parser_file-IsWritable = record {
  lines = (
    (refl, refl, omega arith),
    (
      (refl, refl, omega arith),
      (
        (refl, refl, omega arith),
        (
          (refl, refl, omega arith),
          (
            (refl, refl, omega arith),
            (
              (refl, refl, omega arith),
              (
                (refl, refl, omega arith),
                (
                  (refl, refl, omega arith),
                  (
                    (refl, refl, omega arith),
                    (
                      (refl, refl, omega arith),
                      ((refl, refl, omega arith), ((refl, refl, omega arith), tt)),
                    ),
                  ),
                ),
              ),
            ),
          ),
        ),
      ),
    ),
  );
  functions = ((refl, omega arith), tt);
  executions = ((refl, omega arith), tt);
  line_numbers = ((omega arith, omega arith), tt);
  branches = ((refl, omega arith, omega arith, omega arith), tt);
  functions_found = omega arith;
  functions_hit = omega arith;
  lines_found = omega arith;
  lines_hit = omega arith;
  branches_found = omega arith;
  branches_hit = omega arith;
}

parse-write_example :
    (text : Bytes) × (write_lcov_report_to_file good_disk report (codes "out")
      ≡ written (lcov_path (codes "out")) text)
    × (parse_lcov_file_into_lcov_report text ≡ ok report)
parse-write_example =
    parse-write_lcov_report_to_file good_disk report (codes "out") (λ path. refl) (λ n. refl)
      (λ e. cc e) (parser_file-IsWritable, tt)

lcov_path-out : lcov_path (codes "out") ≡ codes "out.lcov"
unfolding lcov_path has_suffix
lcov_path-out = refl

summarize_example :
    (count Count.lines_found (summarize report).total ≡ pos 20)
    × ((summarize report).files ≡ file_coverage parser_file ∷ [])
summarize_example = summarize_lem report Count.lines_found (20 ∷ []) (refl, tt) (omega arith)

-- The third value of DA may be a checksum; a fourth is an error, and so is a text for a number.
parse_errors :
    (parse_lcov_file_into_lcov_report (codes "DA:1,2,x\nDA:1,2,x,y\n")
      ≡ err (invalid_format (codes "DA:1,2,x,y")))
    × (parse_lcov_file_into_lcov_report (codes "LF:12a\n") ≡ err (failed_parsing (codes "LF:12a")))
    × (parse_lcov_file_into_lcov_report (codes "LF:9223372036854775808\n")
        ≡ err (failed_parsing (codes "LF:9223372036854775808")))
unfolding parse_lcov_file_into_lcov_report atoi split cut bytes_eq
parse_errors = (refl, refl, refl)
