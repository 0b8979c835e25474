-- ===== src/Parser/Logs.antt =====
-- Which lines the parser of libfuzzer.go keeps with the pending finding.
use cifuzz.Base.{
  ℕ, ◌+◌, ◌≡◌, sym, ap, ◌∙◌, true, false, ◌||◌, Option, none, some, List, [], ◌∷◌, ◌++◌,
  append_assoc, append-nil, All, arith, if◌then◌else◌,
}
use cifuzz.Base.Result.{ok, bind_ok}
use cifuzz.Regex.{find_named_groups_match, match_string}
use cifuzz.Text.{Bytes}
use cifuzz.Parser.Finding.{Finding}
use cifuzz.Parser.Patterns.{test_input_file_pattern, ignored_pattern}
use cifuzz.Parser.Detect.{begins_jest_report}
use cifuzz.Parser.Metric.{parse_stats}
use cifuzz.Parser.State.{Options, World, State}
use cifuzz.Parser.Machine.{
  accepted_finding, log_line, handle_text, handle_finding, handle_other_line, note_test_input,
  parse_line, parse_loop, parse_rest, parse_clean_line, clean_line, note_jest_report,
}

-- A line that is no metric, begins no finding whatever is pending, names no test input, and does not
-- begin a Jest report
abbrev pub IsOrdinary : Options → World → Bytes → Type 0
IsOrdinary o w line =
    (parse_stats (clean_line o w line) ≡ none)
    × (((p : Option Finding) → accepted_finding o (clean_line o w line) p ≡ none)
        × ((find_named_groups_match test_input_file_pattern (clean_line o w line) ≡ none)
            × (begins_jest_report (clean_line o w line) ≡ false)))

-- The lines that are not filtered
unfoldable pub kept_lines : Options → World → List Bytes → List Bytes
kept_lines o w [] = []
kept_lines o w (line ∷ lines) =
    let rest = kept_lines o w lines in
    if match_string ignored_pattern (clean_line o w line) then rest else clean_line o w line ∷ rest

kept_lines-cons :
    (o : Options) (w : World) (line : Bytes) (lines : List Bytes)
    → kept_lines o w (line ∷ lines) ≡ kept_lines o w (line ∷ []) ++ kept_lines o w lines
unfolding kept_lines
kept_lines-cons o w line lines = ground arith

abbrev pub with_logs : State → Finding → List Bytes → State
with_logs s f logs = record s { pending_finding = some (record f { logs = logs }) }

behind_startup :
    (o : Options) (w : World) (now : ℕ) (line : Bytes) (s : State)
    → s.init_started || s.init_finished ≡ true
    → parse_clean_line o w now line s ≡ parse_rest o w now line (parse_stats line) s
unfolding parse_clean_line
behind_startup o w now line s h = ground arith

no_jest_report :
    (o : Options) (line : Bytes) (s : State)
    → begins_jest_report line ≡ false
    → note_jest_report o line s ≡ s
no_jest_report o line s h = ground arith

log_line-with_logs :
    (line : Bytes) (s : State) (f : Finding) (logs : List Bytes)
    → s.found_beginning_of_jest_report ≡ false
    → log_line line (with_logs s f logs)
      ≡ with_logs s f (logs ++ (if match_string ignored_pattern line then [] else line ∷ []))
unfolding log_line
log_line-with_logs line s f logs h = ground (arith, append-nil logs)

ordinary_line :
    (o : Options) (w : World) (now : ℕ) (line : Bytes) (s : State) (f : Finding) (logs : List Bytes)
    → s.init_started || s.init_finished ≡ true
    → s.found_beginning_of_jest_report ≡ false
    → IsOrdinary o w line
    → parse_line o w now line (with_logs s f logs)
      ≡ ok (with_logs s f (logs ++ kept_lines o w (line ∷ [])))
unfolding parse_line handle_text handle_finding handle_other_line note_test_input kept_lines
ordinary_line o w now line s f logs started jest h =
    behind_startup o w now text t started
    ∙ ap (λ r. parse_rest o w now text r t) h.0
    ∙ ap (λ p. handle_finding w text p (note_jest_report o text t)) (h.1.0 _)
    ∙ ap (handle_other_line w text) (no_jest_report o text t h.1.1.1)
    ∙ ap (λ r. note_test_input w text r (log_line text t)) h.1.1.0
    ∙ ap ok (log_line-with_logs text s f logs jest)
  where
    text : Bytes
    text = clean_line o w line

    t : State
    t = with_logs s f logs

-- Ordinary lines behind a finding, once the fuzzer has started: they are kept with it in their order,
-- those that are filtered left out, and nothing else changes.
pub parse_loop-with_logs :
    (o : Options) (w : World) (clock : ℕ → ℕ) (n : ℕ) (lines : List Bytes) (s : State) (f : Finding)
    (logs : List Bytes)
    → s.init_started || s.init_finished ≡ true
    → s.found_beginning_of_jest_report ≡ false
    → All (IsOrdinary o w) lines
    → parse_loop o w clock n lines (with_logs s f logs)
      ≡ ok (with_logs s f (logs ++ kept_lines o w lines))
unfolding parse_loop kept_lines
parse_loop-with_logs o w clock n [] s f logs started jest h =
    ap (λ l. ok (with_logs s f l)) (sym (append-nil logs))
parse_loop-with_logs o w clock n (line ∷ lines) s f logs started jest h =
    bind_ok (λ s'. parse_loop o w clock (n + 1) lines s')
      (ordinary_line o w (clock n) line s f logs started jest h.0)
      (parse_loop-with_logs o w clock (n + 1) lines s f (logs ++ kept_lines o w (line ∷ [])) started
          jest h.1
        ∙ ap (λ l. ok (with_logs s f l))
            (append_assoc logs (kept_lines o w (line ∷ [])) (kept_lines o w lines)
              ∙ ap (λ l. logs ++ l) (sym (kept_lines-cons o w line lines))))
