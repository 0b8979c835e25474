-- ===== src/Coverage/Write.antt =====
-- `WriteLCOVReportToFile` of lcov.go.
use cifuzz.Base.{ℕ, suc, Bool, List, [], ◌∷◌, ◌++◌, map, if◌then◌else◌}
use cifuzz.Base.Int.{pos, int_eq}
use cifuzz.Text.{Bytes, codes, has_suffix}
use cifuzz.Text.Decimal.{itoa}
use cifuzz.Text.Scanner.{unlines}
use cifuzz.Coverage.{Function, FunctionExecution, Line, Branch, SourceFile, LcovReport}

unfoldable pub fn_line : Function → Bytes
fn_line f = codes "FN:" ++ (itoa f.line ++ (b',' ∷ f.name))

unfoldable pub fnda_line : FunctionExecution → Bytes
fnda_line f = codes "FNDA:" ++ (itoa f.executions ++ (b',' ∷ f.name))

unfoldable pub da_line : Line → Bytes
da_line l = codes "DA:" ++ (itoa l.number ++ (b',' ∷ itoa l.executions))

-- A branch that was not taken is written with "-". The block number is always written as 0.
unfoldable pub brda_line : Branch → Bytes
brda_line b =
    codes "BRDA:"
    ++ (itoa b.line
        ++ (codes ",0,"
            ++ (itoa b.number
                ++ (b','
                    ∷ (if int_eq b.executions (pos 0) then codes "-" else itoa b.executions)))))

-- The lines of one section, in order
unfoldable pub section_lines : SourceFile → List Bytes
unfolding fn_line fnda_line da_line brda_line
section_lines sf =
    (codes "SF:" ++ sf.name)
    ∷ (map fn_line sf.function_information
        ++ (map fnda_line sf.function_executions
            ++ ((codes "FNF:" ++ itoa sf.overview.functions_found)
                ∷ (codes "FNH:" ++ itoa sf.overview.functions_hit)
                ∷ (map da_line sf.line_information
                    ++ ((codes "LF:" ++ itoa sf.overview.lines_found)
                        ∷ (codes "LH:" ++ itoa sf.overview.lines_hit)
                        ∷ (map brda_line sf.branch_information
                            ++ ((codes "BRF:" ++ itoa sf.overview.branches_found)
                                ∷ (codes "BRH:" ++ itoa sf.overview.branches_hit)
                                ∷ codes "end_of_record"
                                ∷ [])))))))

-- The text `s` of one round of the loop
unfoldable pub section_text : SourceFile → Bytes
unfolding section_lines
section_text sf = unlines (section_lines sf)

-- The file system, as the function sees it: whether the file opens, and whether the n-th write
-- succeeds.
pub record Disk : Type 0 where
  pub opens : Bytes → Bool
  pub writes : ℕ → Bool

pub data WriteOutcome : Type 0 where
  -- an empty report: no file is created
  nothing_written : WriteOutcome
  open_failed : Bytes → WriteOutcome
  -- the path, what was written before a write failed
  write_failed : Bytes → Bytes → WriteOutcome
  written : Bytes → Bytes → WriteOutcome

unfoldable pub write_sections : Disk → ℕ → Bytes → Bytes → List SourceFile → WriteOutcome
unfolding section_text
write_sections disk n file content [] = written file content
write_sections disk n file content (sf ∷ files) =
    let rest = write_sections disk (suc n) file (content ++ section_text sf) files in
    if disk.writes n then rest else write_failed file content

-- The path gets the extension ".lcov" if it does not have it.
unfoldable pub lcov_path : Bytes → Bytes
lcov_path file = if has_suffix file (codes ".lcov") then file else file ++ codes ".lcov"

-- `WriteLCOVReportToFile`
unfoldable pub write_lcov_report_to_file : Disk → LcovReport → Bytes → WriteOutcome
unfolding write_sections lcov_path
write_lcov_report_to_file disk report file = elim report.source_files [
  | [] ↦ nothing_written
  | sf ∷ files ↦
      if disk.opens (lcov_path file)
      then write_sections disk 0 (lcov_path file) [] (sf ∷ files)
      else open_failed (lcov_path file)
]
