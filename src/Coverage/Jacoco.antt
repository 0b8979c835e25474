-- ===== src/Coverage/Jacoco.antt =====
-- jacoco.go: reports of JaCoCo, as LCOV reports and as summaries. The decoding of XML is an argument.
use cifuzz.Base.{
  ℕ, zero, suc, Bool, true, false, ◌&&◌, List, [], ◌∷◌, ◌++◌, if◌then◌else◌, length, ◌-◌,
}
use cifuzz.Base.Int.{ℤ, pos, negsuc, add64, is_positive}
use cifuzz.Text.{Bytes, codes, bytes_eq, has_suffix}
use cifuzz.Text.FilePath.{join_path}
use cifuzz.Strings.{take}
use cifuzz.Coverage.{
  FunctionExecution, Line, Branch, Overview, SourceFile, LcovReport, Summary, no_overview,
  no_source_file,
}

-- `JacocoXMLReport` and `JacocoCounter`, without the fields that are not read
pub record JacocoCounter : Type 0 where
  pub type : Bytes
  pub missed : ℤ
  pub covered : ℤ

pub record JacocoMethod : Type 0 where
  pub name : Bytes
  pub line : ℤ
  pub counters : List JacocoCounter

pub record JacocoClass : Type 0 where
  pub name : Bytes
  pub methods : List JacocoMethod

pub record JacocoLine : Type 0 where
  pub nr : ℤ
  pub missed_instructions : ℤ
  pub covered_instructions : ℤ
  pub missed_branches : ℤ
  pub covered_branches : ℤ

pub record JacocoSourceFile : Type 0 where
  pub name : Bytes
  pub lines : List JacocoLine
  pub counters : List JacocoCounter

pub record JacocoPackage : Type 0 where
  pub name : Bytes
  pub classes : List JacocoClass
  pub source_files : List JacocoSourceFile

-- `countJacoco`
unfoldable pub count_jacoco : Overview → JacocoCounter → Overview
unfolding bytes_eq add64
count_jacoco c counter =
    let found = add64 counter.covered counter.missed in
    if bytes_eq counter.type (codes "LINE")
    then record c {
      lines_found = add64 c.lines_found found;
      lines_hit = add64 c.lines_hit counter.covered;
    }
    else if bytes_eq counter.type (codes "BRANCH")
    then record c {
      branches_found = add64 c.branches_found found;
      branches_hit = add64 c.branches_hit counter.covered;
    }
    else if bytes_eq counter.type (codes "METHOD")
    then record c {
      functions_found = add64 c.functions_found found;
      functions_hit = add64 c.functions_hit counter.covered;
    }
    else c

unfoldable pub count_all : Overview → List JacocoCounter → Overview
unfolding count_jacoco
count_all c [] = c
count_all c (counter ∷ counters) = count_all (count_jacoco c counter) counters

-- The lines of a source file
abbrev pub line_of : JacocoLine → Line
line_of line = record {
  number = line.nr;
  executions = if is_positive line.covered_instructions then pos 1 else pos 0;
}

-- The loops over the branches of a line, from the i-th one
abbrev pub branches_from : ℕ → ℕ → ℤ → ℤ → List Branch
branches_from i zero line executions = []
branches_from i (suc n) line executions =
    record { line = line; block = pos 0; number = pos i; executions = executions }
    ∷ branches_from (suc i) n line executions

abbrev pub branches : ℤ → ℤ → ℤ → List Branch
branches (pos n) line executions = branches_from 0 n line executions
branches (negsuc n) line executions = []

abbrev pub branches_of : JacocoLine → List Branch
branches_of line =
    branches line.covered_branches line.nr (pos 1) ++ branches line.missed_branches line.nr (pos 0)

abbrev pub add_jacoco_lines : List JacocoLine → SourceFile → SourceFile
add_jacoco_lines [] sf = sf
add_jacoco_lines (line ∷ lines) sf = add_jacoco_lines lines (record sf {
  line_information = sf.line_information ++ (line_of line ∷ []);
  branch_information = sf.branch_information ++ branches_of line;
})

-- The executions of a method
unfoldable pub was_executed : List JacocoCounter → Bool
unfolding bytes_eq
was_executed [] = false
was_executed (counter ∷ counters) =
    let rest = was_executed counters in
    if bytes_eq counter.type (codes "METHOD") && is_positive counter.covered then true else rest

abbrev pub execution_of : JacocoMethod → FunctionExecution
unfolding was_executed
execution_of method = record {
  name = method.name;
  executions = if was_executed method.counters then pos 1 else pos 0;
}

unfoldable pub add_methods : List JacocoMethod → SourceFile → SourceFile
unfolding execution_of
add_methods [] sf = sf
add_methods (method ∷ methods) sf = add_methods methods (record sf {
  function_information =
      sf.function_information ++ (record { name = method.name; line = method.line } ∷ []);
  function_executions = sf.function_executions ++ (execution_of method ∷ []);
})

-- `strings.TrimSuffix(path, ".java")`
abbrev pub trim_suffix : Bytes → Bytes
unfolding has_suffix
trim_suffix path = if has_suffix path (codes ".java") then take (length path - 5) path else path

-- The loop over the classes: those of the source file count.
unfoldable pub add_classes : Bytes → List JacocoClass → SourceFile → SourceFile
unfolding add_methods bytes_eq trim_suffix
add_classes package_path [] sf = sf
add_classes package_path (c ∷ classes) sf =
    add_classes package_path classes
      (if bytes_eq c.name (trim_suffix package_path) then add_methods c.methods sf else sf)

-- One source file of `ParseJacocoXMLIntoLCOVReport`
unfoldable pub jacoco_source_file : Bytes → JacocoPackage → JacocoSourceFile → SourceFile
unfolding add_classes count_all join_path
jacoco_source_file source_files_dir pkg source_file =
    let package_path = join_path pkg.name source_file.name in
    let named = record no_source_file { name = join_path source_files_dir package_path } in
    let sf = add_classes package_path pkg.classes (add_jacoco_lines source_file.lines named) in
    record sf { overview = count_all sf.overview source_file.counters }

unfoldable pub files_of_package : Bytes → JacocoPackage → List JacocoSourceFile → List SourceFile
unfolding jacoco_source_file
files_of_package source_files_dir pkg [] = []
files_of_package source_files_dir pkg (f ∷ fs) =
    jacoco_source_file source_files_dir pkg f ∷ files_of_package source_files_dir pkg fs

unfoldable pub jacoco_source_files : Bytes → List JacocoPackage → List SourceFile
unfolding files_of_package
jacoco_source_files source_files_dir [] = []
jacoco_source_files source_files_dir (p ∷ packages) =
    files_of_package source_files_dir p p.source_files
    ++ jacoco_source_files source_files_dir packages

-- `ParseJacocoXMLIntoLCOVReport`, behind the decoding; of an empty text the packages are none.
unfoldable pub parse_jacoco_xml_into_lcov_report : Bytes → List JacocoPackage → LcovReport
unfolding jacoco_source_files
parse_jacoco_xml_into_lcov_report source_files_dir packages = record {
  source_files = jacoco_source_files source_files_dir packages;
}

-- One source file of `ParseJacocoXMLIntoSummary`: the counters go to the total and to the file.
unfoldable pub summarize_jacoco_file : Bytes → JacocoSourceFile → Summary → Summary
unfolding count_all
summarize_jacoco_file pkg f s = record {
  total = count_all s.total f.counters;
  files =
      s.files
      ++ (record {
        filename = pkg ++ (codes "/" ++ f.name);
        coverage = count_all no_overview f.counters;
      }
          ∷ []);
}

unfoldable pub summarize_jacoco_files : Bytes → List JacocoSourceFile → Summary → Summary
unfolding summarize_jacoco_file
summarize_jacoco_files pkg [] s = s
summarize_jacoco_files pkg (f ∷ fs) s =
    summarize_jacoco_files pkg fs (summarize_jacoco_file pkg f s)

unfoldable pub summarize_jacoco : List JacocoPackage → Summary → Summary
unfolding summarize_jacoco_files
summarize_jacoco [] s = s
summarize_jacoco (p ∷ packages) s =
    summarize_jacoco packages (summarize_jacoco_files p.name p.source_files s)

-- `ParseJacocoXMLIntoSummary`, behind the decoding; of a text that cannot be decoded the packages are none.
unfoldable pub parse_jacoco_xml_into_summary : List JacocoPackage → Summary
unfolding summarize_jacoco
parse_jacoco_xml_into_summary packages =
    summarize_jacoco packages (record { total = no_overview; files = [] })
