-- ===== src/Tests/TraceTests.antt =====
-- Stack traces, as the parser of pkg/parser/libfuzzer/stacktrace reads them.
use cifuzz.Base.{◌≡◌, refl, true, false, some, none, List, [], ◌∷◌, All}
use cifuzz.Regex.{find_named_groups_match, match_string, group_text}
use cifuzz.Base.Result.{ok, err}
use cifuzz.Text.{Bytes, codes}
use cifuzz.Parser.Finding.{StackFrame}
use cifuzz.Parser.StackTrace.{
  ParserOptions, invalid_number, nil_source_map, remove_last_part, java_source_file_path,
}
use cifuzz.Parser.PackageNames.{IsNearest, java_source_file_path-IsNearest}
use cifuzz.Parser.Frames.{parse_trace}
use cifuzz.Parser.Traces.{IsLocal}
use cifuzz.Parser.SentTraces.{AllTraced, with_traces, parse-with_traces}
use cifuzz.Parser.State.{State}
use cifuzz.Parser.Machine.{parse, initial, handle_text, handle_metric}
use cifuzz.Parser.Metric.{parse_stats}
use cifuzz.Parser.Detect.{parse_as_new_finding, parse_other_findings}
use cifuzz.Text.Decimal.{number, atoi}
use cifuzz.Tests.ParserTests.{options, world, clock, lines_of}
use cifuzz.Parser.TraceShape.{
  parse_trace-IsLocal, parse_trace-IsIncreasing, IsIncreasing, EndsAtFuzzTest,
}

abbrev cpp : ParserOptions
cpp = record {
  project_dir = codes "/project";
  java_packages = none;
  support_jazzer = false;
  support_jazzer_js = false;
}

abbrev java : ParserOptions
java = record {
  project_dir = codes "/project";
  java_packages = some ((codes "com.example", codes "src/com/example/Foo.java" ∷ []) ∷ []);
  support_jazzer = true;
  support_jazzer_js = false;
}

abbrev cpp_logs : List Bytes
cpp_logs =
    codes "==1==ERROR: AddressSanitizer"
    ∷ codes "    #0 0x1 in memcpy /lib/asan.cpp:9:3"
    ∷ codes "    #1 0x2 in explore(int) /project/src/explore.cpp:18:11"
    ∷ codes "    #2 0x3 in LLVMFuzzerTestOneInput /project/fuzz.cpp:7:3"
    ∷ codes "    #3 0x4 in main /project/main.cpp:1:1"
    ∷ []

abbrev cpp_frames : List StackFrame
cpp_frames =
    record {
      source_file = codes "src/explore.cpp";
      line = 18;
      column = 11;
      frame_number = 1;
      function = codes "explore";
    }
    ∷ record {
      source_file = codes "fuzz.cpp";
      line = 7;
      column = 3;
      frame_number = 2;
      function = codes "LLVMFuzzerTestOneInput";
    }
    ∷ []

-- The file outside the project and the frame behind the fuzz test are left out.
cpp_trace : parse_trace cpp cpp_logs ≡ ok cpp_frames
unfolding parse_trace find_named_groups_match group_text
cpp_trace = refl

-- The package of the function leads to the file in the source map.
java_trace :
    parse_trace java (codes "  at com.example.Foo.bar(Foo.java:12)" ∷ [])
    ≡ ok (
        record {
          source_file = codes "src/com/example/Foo.java";
          line = 12;
          column = 0;
          frame_number = 0;
          function = codes "com.example.Foo.bar";
        }
        ∷ [])
unfolding parse_trace find_named_groups_match group_text
java_trace = refl

-- A Java frame without a line, and one without a source map
java_without_line :
    parse_trace java (codes "  at com.example.Foo.bar(Foo.java:)" ∷ []) ≡ err (invalid_number [])
unfolding parse_trace find_named_groups_match group_text
java_without_line = refl

java_without_map :
    parse_trace
      (record java { java_packages = none })
      (codes "  at com.example.Foo.bar(Foo.java:12)" ∷ [])
    ≡ err nil_source_map
unfolding parse_trace find_named_groups_match group_text
java_without_map = refl

-- A diagnosis of UndefinedBehaviorSanitizer, with and without a line
ub_san_trace :
    parse_trace cpp (codes "src/a.cpp:3:5: runtime error: shift" ∷ [])
    ≡ ok (
        record {
          source_file = codes "src/a.cpp";
          line = 3;
          column = 5;
          frame_number = 0;
          function = [];
        }
        ∷ [])
unfolding parse_trace find_named_groups_match group_text
ub_san_trace = refl

ub_san_without_line :
    parse_trace cpp (codes "<unknown>: runtime error: shift" ∷ []) ≡ err (invalid_number [])
unfolding parse_trace find_named_groups_match group_text
ub_san_without_line = refl

parse_trace-IsLocal_example : All (IsLocal cpp) cpp_frames
unfolding parse_trace find_named_groups_match group_text
parse_trace-IsLocal_example = parse_trace-IsLocal cpp cpp_logs cpp_frames refl

parse_trace-IsIncreasing_example : IsIncreasing cpp_frames × EndsAtFuzzTest cpp_frames
unfolding parse_trace find_named_groups_match group_text
parse_trace-IsIncreasing_example = parse_trace-IsIncreasing cpp cpp_logs cpp_frames refl refl refl

abbrev java_packages : List (Bytes × List Bytes)
java_packages =
    (codes "com.example", codes "a/Foo.java" ∷ [])
    ∷ ((codes "com", codes "b/Foo.java" ∷ codes "b/Bar.java" ∷ []) ∷ [])

abbrev java_options : ParserOptions
java_options = record cpp { java_packages = some java_packages }

java_source_file_path_example :
    (file : Bytes) × (java_source_file_path java_options
        (codes "Bar.java")
        (codes "com.example.Bar$In.run")
      ≡ ok file)
    × IsNearest java_packages (codes "Bar.java") (codes "com.example") file
unfolding remove_last_part
java_source_file_path_example =
    java_source_file_path-IsNearest java_options java_packages (codes "Bar.java")
      (codes "com.example.Bar$In.run") refl

bar_in_com :
    java_source_file_path java_options (codes "Bar.java") (codes "com.example.Bar$In.run")
    ≡ ok (codes "b/Bar.java")
unfolding java_source_file_path
bar_in_com = refl

abbrev run_output : Bytes
run_output = lines_of (codes "#2 INITED cov: 10 ft: 11 corp: 1/1b exec/s: 0 rss: 30Mb" ∷ cpp_logs)

abbrev run_state : State
run_state = elim (parse options (with_traces cpp world) clock run_output) as (λ r. State) [
  | ok s ↦ s
  | err e ↦ initial
]

parse-with_traces_example : AllTraced (All (IsLocal cpp)) run_state
unfolding parse find_named_groups_match match_string parse_stats number group_text atoi
    handle_metric handle_text parse_as_new_finding parse_other_findings
parse-with_traces_example = parse-with_traces options cpp world clock run_output run_state refl
