-- ===== src/Tests/ParserTests.antt =====
-- Outputs of fuzzers, as the parser of pkg/parser/libfuzzer reads them.
use cifuzz.Base.{ℕ, ◌≡◌, ◌≢◌, refl, true, false, some, List, [], ◌∷◌, ◌++◌, length, All, ◌⊎◌}
use cifuzz.Base.Int.{pos}
use cifuzz.Base.Result.{ok, err}
use cifuzz.Text.{Bytes, codes, split}
use cifuzz.Text.Decimal.{number, atoi}
use cifuzz.Regex.{find_named_groups_match, match_string, group_text}
use cifuzz.Parser.Detect.{
  parse_as_new_finding, parse_other_findings, begins_jest_report,
  libfuzzer_error_following_go_panic,
}
use cifuzz.Text.Scanner.{scan}
use cifuzz.Parser.Finding.{Finding, new_finding, crash}
use cifuzz.Parser.Metric.{
  Progress, Stats, metric_of, next_progress, parse_stats, seconds_since, int_lt,
}
use cifuzz.Parser.State.{
  Options, World, State, nil_pending_finding, context_done, unexpected_test_input,
}
use cifuzz.Parser.Machine.{parse, parse_loop, initial, handle_text, handle_metric, accepted_finding}
use cifuzz.Parser.Accounting.{titles, sent_findings, heard}
use cifuzz.Parser.Failures.{FailsAtLine, FailsAtEnd, parse-fails}
use cifuzz.Parser.Pending.{parse-pending_finding}
use cifuzz.Parser.Reported.{parse-reported}
use cifuzz.Parser.Progress.{next_progress-metric_of, next_progress-highest}
use cifuzz.Parser.ErrorId.{matches, for_finding}
use cifuzz.Parser.FirstMatch.{all_matchers, IsFirst, for_finding_lem}
use cifuzz.Parser.Logs.{parse_loop-with_logs, with_logs, kept_lines}

abbrev pub options : Options
options = record {
  support_jazzer = false;
  support_jazzer_js = false;
  keep_color = true;
  has_startup_output = true;
  project_dir = codes "/project";
}

-- An environment in which nothing fails, and no stack trace has frames
abbrev pub world : World
world = record {
  remove_color = λ line. line;
  read_file = λ path. some (codes "input");
  startup_write = λ line. true;
  cancelled = λ n. false;
  parse_stack_trace = λ logs. some [];
}

abbrev pub clock : ℕ → ℕ
clock n = n

abbrev inited_line : Bytes
inited_line = codes "#2 INITED cov: 10 ft: 11 corp: 1/1b exec/s: 0 rss: 30Mb"

abbrev pub lines_of : List Bytes → Bytes
lines_of [] = []
lines_of (line ∷ lines) = line ++ (10 ∷ lines_of lines)

abbrev output : Bytes
output = lines_of (
    codes "loading"
    ∷ codes "INFO: seed corpus: files: 3 min: 1b max: 4b total: 6b rss: 30Mb"
    ∷ inited_line
    ∷ codes "==1==ERROR: AddressSanitizer: heap-buffer-overflow on address 0x1"
    ∷ codes "    #0 0x1 in f"
    ∷ codes "panic: boom"
    ∷ [])

abbrev final_state : State
final_state = elim (parse options world clock output) as (λ r. State) [ ok s ↦ s | err e ↦ initial ]

-- Both findings are reported, behind the report on the seeds and the metric.
output_titles :
    titles (sent_findings final_state.sent)
    ≡ codes "heap-buffer-overflow on address 0x1" ∷ codes "Go Panic" ∷ []
unfolding parse find_named_groups_match match_string parse_stats handle_text parse_as_new_finding
    parse_other_findings number group_text atoi handle_metric libfuzzer_error_following_go_panic
output_titles = refl

output_reports : length final_state.sent ≡ 4
unfolding parse find_named_groups_match match_string parse_stats handle_text parse_as_new_finding
    parse_other_findings number group_text atoi handle_metric libfuzzer_error_following_go_panic
output_reports = refl

parse-pending_finding_example : parse options world clock output ≢ err nil_pending_finding
parse-pending_finding_example = parse-pending_finding options world clock output

parse-reported_example :
    titles (sent_findings final_state.sent)
    ≡ titles (heard options world clock 0 (scan output).lines initial)
unfolding parse find_named_groups_match match_string parse_stats handle_text parse_as_new_finding
    parse_other_findings number group_text atoi handle_metric libfuzzer_error_following_go_panic
parse-reported_example = parse-reported options world clock output final_state refl

abbrev seen : Progress
seen = record {
  last_new_feature_time = some 1000000000;
  last_features = pos 11;
  last_new_edge_time = some 3000000000;
  last_edges = pos 10;
}

-- More edges, and no more features
abbrev stats : Stats
stats = record {
  total_execs = 8;
  features = pos 11;
  edges = pos 12;
  execs_per_sec = pos 0;
  corpus_size = pos 1;
  status = codes "NEW";
}

next_progress-metric_of_example :
    ((metric_of 9000000000 stats seen).seconds_since_last_feature
      ≡ seconds_since (next_progress 9000000000 stats seen).last_new_feature_time 9000000000)
    × ((metric_of 9000000000 stats seen).seconds_since_last_edge
        ≡ seconds_since (next_progress 9000000000 stats seen).last_new_edge_time 9000000000)
next_progress-metric_of_example = next_progress-metric_of 9000000000 stats seen

metric_seconds :
    ((metric_of 9000000000 stats seen).seconds_since_last_feature ≡ 8)
    × ((metric_of 9000000000 stats seen).seconds_since_last_edge ≡ 0)
unfolding metric_of
metric_seconds = (refl, refl)

next_progress-highest_example :
    let q = next_progress 9000000000 stats seen in
    (int_lt q.last_features (pos 11) ≡ false)
    × ((int_lt q.last_features (pos 11) ≡ false)
        × (int_lt q.last_edges (pos 12) ≡ false)
        × (int_lt q.last_edges (pos 10) ≡ false))
next_progress-highest_example = next_progress-highest 9000000000 stats seen

abbrev overflow : Finding
overflow = new_finding crash (codes "heap-buffer-overflow") (codes "==1==ERROR" ∷ [])

abbrev started : State
started = record initial { init_started = true }

abbrev frames : List Bytes
frames = codes "    #0 0x1 in f" ∷ codes "    #1 0x2 in main" ∷ []

parse_loop-with_logs_example :
    parse_loop options world clock 5 frames (with_logs started overflow (codes "==1==ERROR" ∷ []))
    ≡ ok (with_logs started overflow (codes "==1==ERROR" ∷ kept_lines options world frames))
unfolding find_named_groups_match match_string parse_stats accepted_finding parse_as_new_finding
    parse_other_findings begins_jest_report
parse_loop-with_logs_example =
    parse_loop-with_logs options world clock 5 frames started overflow (codes "==1==ERROR" ∷ [])
      refl refl ((refl, ((λ p. refl), (refl, refl))), ((refl, ((λ p. refl), (refl, refl))), tt))

kept_frames : kept_lines options world frames ≡ frames
unfolding kept_lines match_string
kept_frames = refl

for_finding_example :
    (All (λ m. matches m (codes "Security Issue: Command Injection") ≡ false) all_matchers
      × (for_finding (codes "Security Issue: Command Injection") ≡ []))
    ⊎ IsFirst all_matchers
        (codes "Security Issue: Command Injection")
        (for_finding (codes "Security Issue: Command Injection"))
for_finding_example = for_finding_lem (codes "Security Issue: Command Injection")

specific_id : for_finding (codes "Security Issue: Command Injection") ≡ codes "os_command_injection"
unfolding for_finding match_string
specific_id = refl

global_id : for_finding (codes "Security Issue: something new") ≡ codes "jazzer_security_issue"
unfolding for_finding match_string
global_id = refl

-- A context that is cancelled from the first report on
abbrev cancelled_world : World
cancelled_world = record world { cancelled = λ n. true }

cancelled : parse options cancelled_world clock output ≡ err context_done
unfolding parse find_named_groups_match match_string parse_stats handle_text parse_as_new_finding
    parse_other_findings number group_text
cancelled = refl

-- A test input for which no finding is pending
abbrev unexpected_line : Bytes
unexpected_line = codes "Test unit written to ./crash-1"

parse_unexpected :
    parse options world clock (lines_of (inited_line ∷ unexpected_line ∷ []))
    ≡ err (unexpected_test_input unexpected_line)
unfolding parse find_named_groups_match match_string parse_stats handle_text parse_as_new_finding
    parse_other_findings number group_text atoi handle_metric
parse_unexpected = refl

parse-fails_example :
    (FailsAtLine options world clock 0
        (inited_line ∷ unexpected_line ∷ [])
        initial
        (unexpected_test_input unexpected_line)
      ⊎ FailsAtEnd options world clock
          (inited_line ∷ unexpected_line ∷ [])
          (unexpected_test_input unexpected_line))
    × (unexpected_test_input unexpected_line ≢ nil_pending_finding)
unfolding scan split
parse-fails_example =
    parse-fails options world clock (lines_of (inited_line ∷ unexpected_line ∷ []))
      (unexpected_test_input unexpected_line) parse_unexpected
