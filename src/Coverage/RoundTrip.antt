-- ===== src/Coverage/RoundTrip.antt =====
-- lcov.go: the parser on what the writer writes.
pub mod Lines
pub mod Items
use cifuzz.Base.{
  ℕ, ◌≡◌, refl, sym, ap, ◌∙◌, Bool, true, false, List, [], ◌∷◌, ◌++◌, map, append_assoc, append-nil,
  arith, if◌then◌else◌, All, All-append, ◌≢◌, suc,
}
use cifuzz.Base.Int.{ℤ, pos, IsInt64}
use cifuzz.Base.Result.{Result, ok, err, ◌>>=◌, bind_ok}
use cifuzz.Text.{Bytes, codes, bytes_eq, cut}
use cifuzz.Text.Split.{Free}
use cifuzz.Text.Decimal.{itoa}
use cifuzz.Text.Scanner.{scan, unlines, IsLine, scan-unlines, unlines-append}
use cifuzz.Coverage.{
  Function, FunctionExecution, Line, Branch, Overview, SourceFile, LcovReport, no_source_file,
}
use cifuzz.Coverage.Lcov.{
  LcovError, LcovState, update_current, end_record, finish_scan, initial_state, parse_line,
  parse_lines, parse_lcov_file_into_lcov_report,
}
use cifuzz.Coverage.Write.{
  fn_line, fnda_line, da_line, brda_line, section_lines, section_text, Disk, written,
  write_sections, lcov_path, write_lcov_report_to_file,
}
use Lines.{parse_line-counts}
use Items.{
  IsFunction, IsExecution, IsLineCount, IsBranch, parse_lines-cons, parse_lines-functions,
  parse_lines-executions, parse_lines-line_counts, parse_lines-branches,
}

-- A section that the format can express: no comma in a function's name, block 0 in each branch,
-- and no line that the scanner would cut or shorten.
pub record IsWritable (sf : SourceFile) : Type 0 where
  pub lines : All IsLine (section_lines sf)
  pub functions : All IsFunction sf.function_information
  pub executions : All IsExecution sf.function_executions
  pub line_numbers : All IsLineCount sf.line_information
  pub branches : All IsBranch sf.branch_information
  pub functions_found : IsInt64 sf.overview.functions_found
  pub functions_hit : IsInt64 sf.overview.functions_hit
  pub lines_found : IsInt64 sf.overview.lines_found
  pub lines_hit : IsInt64 sf.overview.lines_hit
  pub branches_found : IsInt64 sf.overview.branches_found
  pub branches_hit : IsInt64 sf.overview.branches_hit

parse_line_name :
    (name : Bytes) (s : LcovState)
    → parse_line (codes "SF:" ++ name) s ≡ ok (update_current s (record s.current { name = name }))
unfolding parse_line cut bytes_eq
parse_line_name name s = refl

parse_line_end : (s : LcovState) → parse_line (codes "end_of_record") s ≡ ok (end_record s)
unfolding parse_line bytes_eq
parse_line_end s = refl

-- Reading the lines of one section adds its file to the report.
parse_lines-section :
    (sf : SourceFile) (rest : List Bytes) (report : LcovReport)
    → IsWritable sf
    → parse_lines (section_lines sf ++ rest) (record { report = report; current = no_source_file })
      ≡ parse_lines rest (end_record (record { report = report; current = sf }))
unfolding section_lines
parse_lines-section sf rest report w = simp append_assoc (
    parse_lines-cons _ _ _ (parse_line_name sf.name _)
    ∙ (parse_lines-functions sf.function_information _ _ w.functions
        ∙ (parse_lines-executions sf.function_executions _ _ w.executions
            ∙ (parse_lines-cons _ _ _ (parse_line-counts _ _ w.functions_found).0
                ∙ (parse_lines-cons _ _ _ (parse_line-counts _ _ w.functions_hit).1
                    ∙ (parse_lines-line_counts sf.line_information _ _ w.line_numbers
                        ∙ (parse_lines-cons _ _ _ (parse_line-counts _ _ w.lines_found).2
                            ∙ (parse_lines-cons _ _ _ (parse_line-counts _ _ w.lines_hit).3
                                ∙ (parse_lines-branches sf.branch_information _ _ w.branches
                                    ∙ (parse_lines-cons _ _ _
                                          (parse_line-counts _ _ w.branches_found).4
                                        ∙ (parse_lines-cons _ _ _
                                              (parse_line-counts _ _ w.branches_hit).5
                                            ∙ parse_lines-cons _ _ _ (parse_line_end _))))))))))))

abbrev all_lines : List SourceFile → List Bytes
all_lines [] = []
all_lines (sf ∷ files) = section_lines sf ++ all_lines files

IsLine-all_lines : (files : List SourceFile) → All IsWritable files → All IsLine (all_lines files)
IsLine-all_lines [] w = tt
IsLine-all_lines (sf ∷ files) w =
    All-append IsLine (section_lines sf) (all_lines files) w.0.lines (IsLine-all_lines files w.1)

parse_lines-all_lines :
    (files done : List SourceFile)
    → All IsWritable files
    → parse_lines
        (all_lines files)
        (record { report = record { source_files = done }; current = no_source_file })
      ≡ ok (record { report = record { source_files = done ++ files }; current = no_source_file })
unfolding parse_lines
parse_lines-all_lines [] done w =
    ap (λ fs. ok (record { report = record { source_files = fs }; current = no_source_file }))
      (sym (append-nil done))
parse_lines-all_lines (sf ∷ files) done w =
    parse_lines-section sf (all_lines files) (record { source_files = done }) w.0
    ∙ parse_lines-all_lines files (done ++ (sf ∷ [])) w.1
    ∙ ap (λ fs. ok (record { report = record { source_files = fs }; current = no_source_file }))
        (append_assoc done (sf ∷ []) files)

-- What the loop of the writer has written in the end.
write_sections_lem :
    (disk : Disk) (n : ℕ) (path content : Bytes) (files : List SourceFile)
    → ((k : ℕ) → disk.writes k ≡ true)
    → write_sections disk n path content files ≡ written path (content ++ unlines (all_lines files))
unfolding write_sections
write_sections_lem disk n path content [] h = ap (written path) (sym (append-nil content))
write_sections_lem disk n path content (sf ∷ files) h = rw (h n) (
    write_sections_lem disk (suc n) path (content ++ section_text sf) files h
    ∙ ap (written path) (
        append_assoc content (section_text sf) (unlines (all_lines files))
        ∙ ap (◌++◌ content)
            (unfold section_text in sym (unlines-append (section_lines sf) (all_lines files)))))

parse-unlines :
    (files : List SourceFile)
    → All IsWritable files
    → parse_lcov_file_into_lcov_report (unlines (all_lines files))
      ≡ ok (record { source_files = files })
unfolding parse_lcov_file_into_lcov_report
parse-unlines files w =
    ap (λ r. parse_lines r.lines initial_state >>= finish_scan r.too_long)
      (scan-unlines (all_lines files) (IsLine-all_lines files w))
    ∙ bind_ok (finish_scan false) (parse_lines-all_lines files [] w) refl

write_lcov_report_to_file_lem :
    (disk : Disk) (files : List SourceFile) (file : Bytes)
    → ((path : Bytes) → disk.opens path ≡ true)
    → ((k : ℕ) → disk.writes k ≡ true)
    → files ≢ []
    → write_lcov_report_to_file disk (record { source_files = files }) file
      ≡ written (lcov_path file) (unlines (all_lines files))
write_lcov_report_to_file_lem disk [] file opens writes ne = absurd (ne refl)
write_lcov_report_to_file_lem disk (sf ∷ files) file opens writes ne =
    let wrote = write_sections_lem disk 0 (lcov_path file) [] (sf ∷ files) writes in
    unfold write_lcov_report_to_file in ground (arith, opens (lcov_path file), wrote)

-- Where the disk takes every write, a report that is not empty and that the format can express is
-- written to the path with the extension, and parsing the text gives the same report.
pub parse-write_lcov_report_to_file :
    (disk : Disk) (report : LcovReport) (file : Bytes)
    → ((path : Bytes) → disk.opens path ≡ true)
    → ((k : ℕ) → disk.writes k ≡ true)
    → report.source_files ≢ []
    → All IsWritable report.source_files
    → (text : Bytes) × (write_lcov_report_to_file disk report file ≡ written (lcov_path file) text)
      × (parse_lcov_file_into_lcov_report text ≡ ok report)
parse-write_lcov_report_to_file disk report file opens writes ne w = (
  unlines (all_lines report.source_files),
  write_lcov_report_to_file_lem disk report.source_files file opens writes ne,
  parse-unlines report.source_files w,
)
