-- ===== src/Coverage/Agreement.antt =====
-- jacoco.go: the LCOV report and the summary of one JaCoCo report.
use cifuzz.Base.{
  Bool, true, false, ◌≡◌, refl, ap, sym, ◌∙◌, if◌then◌else◌, List, [], ◌∷◌, ◌++◌, map, append-nil,
  append_assoc,
}
use cifuzz.Text.{Bytes, bytes_eq}
use cifuzz.Text.FilePath.{join_path}
use cifuzz.Coverage.{Overview, SourceFile, Summary, no_overview, no_source_file}
use cifuzz.Coverage.Jacoco.{
  JacocoLine, JacocoMethod, JacocoClass, JacocoSourceFile, JacocoPackage, count_all, line_of,
  branches_of, add_jacoco_lines, execution_of, add_methods, trim_suffix, add_classes,
  jacoco_source_file, files_of_package, jacoco_source_files, parse_jacoco_xml_into_lcov_report,
  summarize_jacoco_file, summarize_jacoco_files, summarize_jacoco, parse_jacoco_xml_into_summary,
}

overview-add_jacoco_lines :
    (lines : List JacocoLine) (sf : SourceFile) → (add_jacoco_lines lines sf).overview ≡ sf.overview
overview-add_jacoco_lines [] sf = refl
overview-add_jacoco_lines (line ∷ lines) sf = overview-add_jacoco_lines lines (record sf {
  line_information = sf.line_information ++ (line_of line ∷ []);
  branch_information = sf.branch_information ++ branches_of line;
})

overview-add_methods :
    (methods : List JacocoMethod) (sf : SourceFile)
    → (add_methods methods sf).overview ≡ sf.overview
unfolding add_methods
overview-add_methods [] sf = refl
overview-add_methods (method ∷ methods) sf = overview-add_methods methods (record sf {
  function_information =
      sf.function_information ++ (record { name = method.name; line = method.line } ∷ []);
  function_executions = sf.function_executions ++ (execution_of method ∷ []);
})

overview-if :
    (b : Bool) (methods : List JacocoMethod) (sf : SourceFile)
    → (if b then add_methods methods sf else sf).overview ≡ sf.overview
overview-if true methods sf = overview-add_methods methods sf
overview-if false methods sf = refl

overview-add_classes :
    (path : Bytes) (classes : List JacocoClass) (sf : SourceFile)
    → (add_classes path classes sf).overview ≡ sf.overview
unfolding add_classes
overview-add_classes path [] sf = refl
overview-add_classes path (c ∷ classes) sf =
    overview-add_classes path classes
      (if bytes_eq c.name (trim_suffix path) then add_methods c.methods sf else sf)
    ∙ overview-if (bytes_eq c.name (trim_suffix path)) c.methods sf

-- What a source file counts, in either report
abbrev pub overview_of : JacocoSourceFile → Overview
overview_of f = count_all no_overview f.counters

abbrev pub overviews_of : List JacocoPackage → List Overview
overviews_of [] = []
overviews_of (p ∷ packages) = map overview_of p.source_files ++ overviews_of packages

overview-jacoco_source_file :
    (dir : Bytes) (p : JacocoPackage) (f : JacocoSourceFile)
    → (jacoco_source_file dir p f).overview ≡ overview_of f
unfolding jacoco_source_file
overview-jacoco_source_file dir p f =
    let path = join_path p.name f.name in
    let named = record no_source_file { name = join_path dir path } in
    ap (λ o. count_all o f.counters)
      (overview-add_classes path p.classes (add_jacoco_lines f.lines named)
        ∙ overview-add_jacoco_lines f.lines named)

map-append :
    {A : Type 0} {B : Type 0} (g : A → B) (xs ys : List A) → map g (xs ++ ys) ≡ map g xs ++ map g ys
map-append g [] ys = refl
map-append g (x ∷ xs) ys = ap (◌∷◌ (g x)) (map-append g xs ys)

overviews-files_of_package :
    (dir : Bytes) (p : JacocoPackage) (fs : List JacocoSourceFile)
    → map (λ sf. sf.overview) (files_of_package dir p fs) ≡ map overview_of fs
unfolding files_of_package
overviews-files_of_package dir p [] = refl
overviews-files_of_package dir p (f ∷ fs) =
    simp (overview-jacoco_source_file, overviews-files_of_package dir p fs)

overviews-jacoco_source_files :
    (dir : Bytes) (packages : List JacocoPackage)
    → map (λ sf. sf.overview) (jacoco_source_files dir packages) ≡ overviews_of packages
unfolding jacoco_source_files
overviews-jacoco_source_files dir [] = refl
overviews-jacoco_source_files dir (p ∷ packages) =
    simp (map-append, overviews-files_of_package, overviews-jacoco_source_files dir packages)

coverages-summarize_jacoco_files :
    (name : Bytes) (fs : List JacocoSourceFile) (s : Summary)
    → map (λ f. f.coverage) (summarize_jacoco_files name fs s).files
      ≡ map (λ f. f.coverage) s.files ++ map overview_of fs
unfolding summarize_jacoco_files summarize_jacoco_file
coverages-summarize_jacoco_files name [] s = sym (append-nil _)
coverages-summarize_jacoco_files name (f ∷ fs) s =
    coverages-summarize_jacoco_files name fs _ ∙ simp (map-append, append_assoc)

coverages-summarize_jacoco :
    (packages : List JacocoPackage) (s : Summary)
    → map (λ f. f.coverage) (summarize_jacoco packages s).files
      ≡ map (λ f. f.coverage) s.files ++ overviews_of packages
unfolding summarize_jacoco
coverages-summarize_jacoco [] s = sym (append-nil _)
coverages-summarize_jacoco (p ∷ packages) s =
    coverages-summarize_jacoco packages _
    ∙ simp (coverages-summarize_jacoco_files p.name p.source_files s, append_assoc)

-- The LCOV report and the summary of one JaCoCo report list the same counts, file by file, whatever
-- the directory of the sources.
pub parse_jacoco_agree :
    (source_files_dir : Bytes) (packages : List JacocoPackage)
    → map
        (λ sf. sf.overview)
        (parse_jacoco_xml_into_lcov_report source_files_dir packages).source_files
      ≡ map (λ f. f.coverage) (parse_jacoco_xml_into_summary packages).files
unfolding parse_jacoco_xml_into_lcov_report parse_jacoco_xml_into_summary
parse_jacoco_agree source_files_dir packages =
    overviews-jacoco_source_files source_files_dir packages
    ∙ sym (coverages-summarize_jacoco packages _)
