-- ===== src/Tests/JacocoTests.antt =====
-- jacoco.go on a concrete report.
use cifuzz.Base.{◌≡◌, refl, map, [], ◌∷◌}
use cifuzz.Base.Int.{pos}
use cifuzz.Text.{codes}
use cifuzz.Coverage.Jacoco.{
  JacocoMethod, JacocoPackage, jacoco_source_file, files_of_package, jacoco_source_files,
  parse_jacoco_xml_into_lcov_report, parse_jacoco_xml_into_summary,
}
use cifuzz.Coverage.Agreement.{parse_jacoco_agree}

abbrev explore_me : JacocoMethod
explore_me = record {
  name = codes "exploreMe";
  line = pos 4;
  counters = record { type = codes "METHOD"; missed = pos 0; covered = pos 1 } ∷ [];
}

abbrev example_package : JacocoPackage
example_package = record {
  name = codes "com/example";
  classes =
      record { name = codes "com/example/ExploreMe"; methods = explore_me ∷ [] }
      ∷ record { name = codes "com/example/App"; methods = explore_me ∷ explore_me ∷ [] }
      ∷ [];
  source_files =
      record {
        name = codes "ExploreMe.java";
        lines =
            record {
              nr = pos 5;
              missed_instructions = pos 1;
              covered_instructions = pos 2;
              missed_branches = pos 1;
              covered_branches = pos 2;
            }
            ∷ [];
        counters =
            record { type = codes "LINE"; missed = pos 3; covered = pos 4 }
            ∷ record { type = codes "METHOD"; missed = pos 0; covered = pos 1 }
            ∷ [];
      }
      ∷ [];
}

parse_jacoco_agree_example :
    map
      (λ sf. sf.overview)
      (parse_jacoco_xml_into_lcov_report (codes "src") (example_package ∷ [])).source_files
    ≡ map (λ f. f.coverage) (parse_jacoco_xml_into_summary (example_package ∷ [])).files
parse_jacoco_agree_example = parse_jacoco_agree (codes "src") (example_package ∷ [])

-- Only the class of the source file gives methods; of a line, the covered branches come first.
example_report : parse_jacoco_xml_into_lcov_report (codes "src") (example_package ∷ []) ≡ record {
  source_files =
      record {
        name = codes "src/com/example/ExploreMe.java";
        function_information = record { name = codes "exploreMe"; line = pos 4 } ∷ [];
        function_executions = record { name = codes "exploreMe"; executions = pos 1 } ∷ [];
        line_information = record { number = pos 5; executions = pos 1 } ∷ [];
        branch_information =
            record { line = pos 5; block = pos 0; number = pos 0; executions = pos 1 }
            ∷ record { line = pos 5; block = pos 0; number = pos 1; executions = pos 1 }
            ∷ record { line = pos 5; block = pos 0; number = pos 0; executions = pos 0 }
            ∷ [];
        overview = record {
          functions_found = pos 1;
          functions_hit = pos 1;
          lines_found = pos 7;
          lines_hit = pos 4;
          branches_found = pos 0;
          branches_hit = pos 0;
        };
      }
      ∷ [];
}
unfolding parse_jacoco_xml_into_lcov_report jacoco_source_files files_of_package jacoco_source_file
example_report = refl
