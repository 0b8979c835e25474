-- ===== src/Parser/Machine.antt =====
-- The output parser of libfuzzer.go: `parseLine` and `Parse`.
use cifuzz.Base.{
  ℕ, ◌+◌, Bool, true, false, not, ◌&&◌, ◌||◌, Option, none, some, List, [], ◌∷◌, ◌++◌, ◌==◌,
  if◌then◌else◌,
}
use cifuzz.Base.Int.{ℤ}
use cifuzz.Base.Result.{ok, err, ◌>>=◌}
use cifuzz.Text.{Bytes, codes, bytes_eq}
use cifuzz.Text.Scanner.{scan}
use cifuzz.Regex.{find_named_groups_match, match_string, group_text, Captures}
use cifuzz.Parser.Finding.{Finding}
use cifuzz.Parser.Report.{FuzzingMetric, initializing, running, no_report}
use cifuzz.Parser.Patterns.{test_input_file_pattern, ignored_pattern}
use cifuzz.Parser.Detect.{
  parse_as_new_finding, parse_as_jazzer_finding, begins_jest_report,
  libfuzzer_error_following_go_panic,
}
use cifuzz.Parser.Metric.{Stats, parse_stats, metric_of, next_progress}
use cifuzz.Parser.State.{
  Options, World, State, Step, send_report, finalize_and_send, finalize_if_any, read_failed,
  unexpected_test_input,
}
use cifuzz.Parser.Startup.{parse_startup}

-- A metrics line counts while a finding is pending.
abbrev pub count_line : Option Finding → ℕ → ℕ
count_line none n = n
count_line (some f) n = n + 1

-- `parseLine` on a metrics line
unfoldable pub handle_metric : World → FuzzingMetric → State → Step
unfolding send_report finalize_and_send
handle_metric w m s = do
  s' ←
      send_report w
        (record no_report {
          status = if s.init_finished then running else initializing;
          metric = some m;
        })
        s
  let lines = count_line s'.pending_finding s'.num_metrics_lines
  let counted = record s' { num_metrics_lines = lines }
  if lines == 2 then finalize_and_send w counted else ok counted

abbrev pub append_log : Bool → Bytes → Option Finding → Option Finding
append_log keep line none = none
append_log keep line (some f) =
    if keep then some (record f { logs = f.logs ++ (line ∷ []) }) else some f

-- The test input, attached to the pending finding
unfoldable pub attach_test_input : World → Bytes → Bytes → State → Step
attach_test_input w line path s = elim (w.read_file path) [
  | none ↦ err (read_failed path)
  | some content ↦ elim s.pending_finding [
    | none ↦ err (unexpected_test_input line)
    | some f ↦
        ok (record s {
          pending_finding = some (record f { input_data = content; input_file = path });
        })
  ]
]

unfoldable pub note_test_input : World → Bytes → Option Captures → State → Step
unfolding attach_test_input
note_test_input w line none s = ok s
note_test_input w line (some result) s =
    attach_test_input w line (group_text (codes "test_input_file") result) s

-- The pending finding keeps the line, unless the line is filtered.
unfoldable pub log_line : Bytes → State → State
log_line line s =
    let keep = not (match_string ignored_pattern line) && not s.found_beginning_of_jest_report in
    record s { pending_finding = append_log keep line s.pending_finding }

-- `parseLine` on a line that is no metric and begins no finding
unfoldable pub handle_other_line : World → Bytes → State → Step
unfolding note_test_input log_line
handle_other_line w line s =
    note_test_input w line (find_named_groups_match test_input_file_pattern line) (log_line line s)

-- The finding that the line begins, if it is to be pending, given the finding that is
unfoldable pub accepted_finding : Options → Bytes → Option Finding → Option Finding
accepted_finding o line pending =
    elim (parse_as_new_finding o.support_jazzer o.support_jazzer_js pending line) [
      | none ↦ none
      | some f ↦ if libfuzzer_error_following_go_panic pending f then none else some f
    ]

abbrev pub is_found : Option Finding → Bool
is_found none = false
is_found (some f) = true

-- `parseAsNewFinding` notes the beginning of the Jest report, unless Jazzer finds something first.
abbrev pub note_jest_report : Options → Bytes → State → State
note_jest_report o line s =
    let jazzer_found = o.support_jazzer && is_found (parse_as_jazzer_finding line) in
    if o.support_jazzer_js && not jazzer_found && begins_jest_report line
    then record s { found_beginning_of_jest_report = true }
    else s

-- `parseLine` on a line that is no metric, and may begin a finding
unfoldable pub handle_finding : World → Bytes → Option Finding → State → Step
unfolding handle_other_line finalize_if_any
handle_finding w line none s = handle_other_line w line s
handle_finding w line (some f) s = do
  s' ← finalize_if_any w s
  ok (record s' { pending_finding = some f })

unfoldable pub handle_text : Options → World → Bytes → State → Step
unfolding accepted_finding handle_finding
handle_text o w line s =
    handle_finding w line (accepted_finding o line s.pending_finding) (note_jest_report o line s)

-- `parseLine` behind the initialization, on the numbers that the line has if it is a metrics line
abbrev pub parse_rest : Options → World → ℕ → Bytes → Option Stats → State → Step
parse_rest o w now line none s = handle_text o w line s
parse_rest o w now line (some st) s = handle_metric w (metric_of now st s.progress) (record s {
  progress = next_progress now st s.progress;
  init_finished = s.init_finished || bytes_eq st.status (codes "INITED");
})

-- What follows the part before the initialization, which may have dealt with the line.
abbrev pub continue_line : Options → World → ℕ → Bytes → State × Bool → Step
continue_line o w now line (s, true) = ok s
continue_line o w now line (s, false) = parse_rest o w now line (parse_stats line) s

abbrev pub clean_line : Options → World → Bytes → Bytes
clean_line o w line = if o.keep_color then line else w.remove_color line

-- `parseLine`, at the time `now`, on a line without colours
unfoldable pub parse_clean_line : Options → World → ℕ → Bytes → State → Step
unfolding parse_startup
parse_clean_line o w now line s =
    if not s.init_started && not s.init_finished
    then parse_startup o w line s >>= continue_line o w now line
    else parse_rest o w now line (parse_stats line) s

-- `parseLine`
unfoldable pub parse_line : Options → World → ℕ → Bytes → State → Step
unfolding parse_clean_line
parse_line o w now line s = parse_clean_line o w now (clean_line o w line) s

-- The loop of `Parse`; `clock` gives the time at which the n-th line is read.
unfoldable pub parse_loop : Options → World → (ℕ → ℕ) → ℕ → List Bytes → State → Step
unfolding parse_line
parse_loop o w clock n [] s = ok s
parse_loop o w clock n (line ∷ lines) s =
    parse_line o w (clock n) line s >>= λ s'. parse_loop o w clock (n + 1) lines s'

abbrev pub initial : State
initial = record {
  finding_reported = false;
  init_started = false;
  init_finished = false;
  pending_finding = none;
  num_metrics_lines = 0;
  found_beginning_of_jest_report = false;
  progress = record {
    last_new_feature_time = none;
    last_features = ℤ.pos 0;
    last_new_edge_time = none;
    last_edges = ℤ.pos 0;
  };
  sent = [];
  startup_output = [];
}

-- `Parse`, on the whole output. The error of the scanner is not looked at: behind a line that is too
-- long nothing is read.
unfoldable pub parse : Options → World → (ℕ → ℕ) → Bytes → Step
unfolding parse_loop scan finalize_if_any
parse o w clock input =
    parse_loop o w clock 0 (scan input).lines initial >>= λ s. finalize_if_any w s
