-- ===== src/Parser/Causes.antt =====
-- The errors of the parser of libfuzzer.go on one line, and where they come from.
use cifuzz.Base.{
  ℕ, ◌≤◌, ◌≡◌, refl, sym, ◌∙◌, Bool, true, false, not, ◌&&◌, Option, none, some, [], ◌∷◌, ◌++◌,
  ◌==◌, if◌then◌else◌, length, arith,
}
use cifuzz.Base.Result.{Result, ok, err, Ensures, Ensures-bind, Ensures-if}
use cifuzz.Text.{Bytes, codes}
use cifuzz.Regex.{Captures, find_named_groups_match, group_text}
use cifuzz.Parser.Patterns.{test_input_file_pattern}
use cifuzz.Parser.Finding.{Finding}
use cifuzz.Parser.Report.{Report, FuzzingMetric}
use cifuzz.Parser.Metric.{Stats}
use cifuzz.Parser.State.{
  Options, World, State, ParseError, Step, send_report, finalize_if_any, context_done,
  startup_write_failed, stack_trace_failed, nil_pending_finding, invalid_seed_count, read_failed,
  unexpected_test_input,
}
use cifuzz.Parser.Startup.{
  SeedCorpus, bad_number, not_found, seeds, seed_message, report_corpus, parse_startup,
  parse_as_seed_corpus_message,
}
use cifuzz.Parser.Machine.{
  count_line, handle_metric, handle_other_line, handle_finding, handle_text, note_test_input,
  log_line, append_log, attach_test_input, accepted_finding, note_jest_report, parse_rest,
  continue_line, parse_clean_line,
}
use cifuzz.Parser.Induction.{noted_metric}
use cifuzz.Parser.Follows.{
  Follows, AnyState, send_report-Follows, finalize_and_send_lem, finalize_if_any_lem,
}

-- The line names this path as that of a test input.
abbrev pub NamesInput : Bytes → Bytes → Type 0
NamesInput line path =
    (m : Captures) × (find_named_groups_match test_input_file_pattern line ≡ some m)
    × (path ≡ group_text (codes "test_input_file") m)

abbrev pub IsStarting : State → Type 0
IsStarting s = not s.init_started && not s.init_finished ≡ true

-- What an error on a line says of the environment, of the line, and of the state before the line
abbrev pub IsCause : Options → World → Bytes → State → ParseError → Type 0
IsCause o w line s context_done = (n : ℕ) × (length s.sent ≤ n) × (w.cancelled n ≡ true)
IsCause o w line s startup_write_failed =
    IsStarting s × (o.has_startup_output ≡ true) × (w.startup_write line ≡ false)
IsCause o w line s stack_trace_failed =
    (f : Finding) × (s.pending_finding ≡ some f) × (w.parse_stack_trace f.logs ≡ none)
IsCause o w line s nil_pending_finding = Unit
IsCause o w line s (invalid_seed_count l) =
    IsStarting s × (l ≡ line) × (parse_as_seed_corpus_message line ≡ bad_number)
IsCause o w line s (read_failed path) = NamesInput line path × (w.read_file path ≡ none)
IsCause o w line s (unexpected_test_input l) =
    (l ≡ line) × (s.pending_finding ≡ none) × ((path : Bytes) × NamesInput line path)

append_log-none :
    (keep : Bool) (line : Bytes) (p : Option Finding) → append_log keep line p ≡ none → p ≡ none
append_log-none keep line none e = refl
append_log-none true line (some f) e = cc e
append_log-none false line (some f) e = e

if-Follows :
    (b : Bool) (s0 s s' : State) → Follows s0 s → Follows s0 s' → Follows s0 (if b then s else s')
if-Follows true s0 s s' h k = h
if-Follows false s0 s s' h k = k

log_line-none :
    (line : Bytes) (s : State) → (log_line line s).pending_finding ≡ none → s.pending_finding ≡ none
unfolding log_line
log_line-none line s e = append_log-none _ line s.pending_finding e

module _ (o : Options) (w : World) (line : Bytes) (s0 : State) where
  IsCaused : Step → Type 0
  IsCaused m = Ensures AnyState (IsCause o w line s0) m

  abbrev sent_lem :
      (r : Report) (s : State)
      → Follows s0 s
      → Ensures (Follows s0) (IsCause o w line s0) (send_report w r s)
  sent_lem =
      send_report-Follows w s0 (IsCause o w line s0) (λ n l c. (n, l, c)) (λ f p t. (f, p, t))

  handle_metric-IsCaused :
      (m : FuzzingMetric) (s : State) → Follows s0 s → IsCaused (handle_metric w m s)
  unfolding handle_metric IsCaused
  handle_metric-IsCaused m s h =
      Ensures-bind (Follows s0) AnyState (IsCause o w line s0) (send_report w _ s) _
        (sent_lem _ s h)
        (λ s' h'.
          Ensures-if AnyState (IsCause o w line s0)
            (count_line s'.pending_finding s'.num_metrics_lines == 2) _ _
            (λ _.
              finalize_and_send_lem w s0 (IsCause o w line s0) (λ n l c. (n, l, c))
                (λ f p t. (f, p, t)) _ h' (λ _. tt))
            (λ _. tt))

  attach_test_input-IsCaused :
      (path : Bytes) (s : State)
      → NamesInput line path
      → (s.pending_finding ≡ none → s0.pending_finding ≡ none)
      → IsCaused (attach_test_input w line path s)
  unfolding attach_test_input IsCaused
  attach_test_input-IsCaused path s named h = by_file (w.read_file path) refl
    where
      by_pending :
          (content : Bytes) (p : Option Finding)
          → s.pending_finding ≡ p
          → IsCaused (elim p as (λ p. Step) [
            | none ↦ err (unexpected_test_input line)
            | some f ↦ ok (record s {
              pending_finding = some (record f { input_data = content; input_file = path });
            })
          ])
      by_pending content none e = (refl, h e, (path, named))
      by_pending content (some f) e = tt

      by_file :
          (r : Option Bytes)
          → w.read_file path ≡ r
          → IsCaused (elim r as (λ r. Step) [
            | none ↦ err (read_failed path)
            | some content ↦ elim s.pending_finding [
              | none ↦ err (unexpected_test_input line)
              | some f ↦ ok (record s {
                pending_finding = some (record f { input_data = content; input_file = path });
              })
            ]
          ])
      by_file none e = (named, e)
      by_file (some content) e = by_pending content s.pending_finding refl

  handle_other_line-IsCaused : (s : State) → Follows s0 s → IsCaused (handle_other_line w line s)
  unfolding handle_other_line IsCaused
  handle_other_line-IsCaused s h = noted (find_named_groups_match test_input_file_pattern line) refl
    where
      noted :
          (m : Option Captures)
          → find_named_groups_match test_input_file_pattern line ≡ m
          → IsCaused (note_test_input w line m (log_line line s))
      noted none e = tt
      noted (some m) e =
          attach_test_input-IsCaused _ (log_line line s) (m, e, refl)
            (λ n. sym h.0 ∙ log_line-none line s n)

  handle_finding-IsCaused :
      (f : Option Finding) (s : State) → Follows s0 s → IsCaused (handle_finding w line f s)
  unfolding handle_finding IsCaused
  handle_finding-IsCaused none s h = handle_other_line-IsCaused s h
  handle_finding-IsCaused (some f) s h =
      Ensures-bind AnyState AnyState (IsCause o w line s0) (finalize_if_any w s) _
        (finalize_if_any_lem w s0 (IsCause o w line s0) (λ n l c. (n, l, c)) (λ f p t. (f, p, t)) s
          h)
        (λ s' _. tt)

  parse_rest-IsCaused :
      (now : ℕ) (r : Option Stats) (s : State)
      → Follows s0 s
      → IsCaused (parse_rest o w now line r s)
  unfolding handle_text
  parse_rest-IsCaused now none s h =
      handle_finding-IsCaused (accepted_finding o line s.pending_finding)
        (note_jest_report o line s)
        (if-Follows _ s0 (record s { found_beginning_of_jest_report = true }) s h h)
  parse_rest-IsCaused now (some st) s h = handle_metric-IsCaused _ (noted_metric now st s) h

  abbrev StartFollows : State × Bool → Type 0
  StartFollows r = Follows s0 r.0

  seed_message-IsCaused :
      (c : SeedCorpus) (s : State)
      → Follows s0 s
      → IsStarting s0
      → parse_as_seed_corpus_message line ≡ c
      → Ensures StartFollows (IsCause o w line s0) (seed_message o w line c s)
  seed_message-IsCaused bad_number s h i e = (i, refl, e)
  seed_message-IsCaused not_found s h i e =
      Ensures-if StartFollows (IsCause o w line s0) o.has_startup_output _ _
        (λ b. written b (w.startup_write line) refl) (λ _. h)
    where
      written :
          (b : o.has_startup_output ≡ true) (r : Bool)
          → w.startup_write line ≡ r
          → Ensures StartFollows
              (IsCause o w line s0)
              (elim r as (λ b. Result ParseError (State × Bool)) [
                | true ↦ ok (record s { startup_output = s.startup_output ++ (line ∷ []) }, false)
                | false ↦ err startup_write_failed
              ])
      written b true q = h
      written b false q = (i, b, q)
  seed_message-IsCaused (seeds n) s h i e =
      Ensures-bind (Follows s0) StartFollows (IsCause o w line s0) (send_report w _ _) _
        (sent_lem _ _ h) (λ s' h'. h')

  report_corpus-IsCaused :
      (r : Option Report) (s : State)
      → Follows s0 s
      → IsStarting s0
      → Ensures StartFollows (IsCause o w line s0) (report_corpus o w line r s)
  unfolding report_corpus
  report_corpus-IsCaused none s h i = seed_message-IsCaused _ s h i refl
  report_corpus-IsCaused (some r) s h i =
      Ensures-bind (Follows s0) StartFollows (IsCause o w line s0) (send_report w r s) _
        (sent_lem r s h) (λ s' h'. h')

  continue_line-IsCaused :
      (now : ℕ) (r : State × Bool) → StartFollows r → IsCaused (continue_line o w now line r)
  unfolding IsCaused
  continue_line-IsCaused now (s, true) h = tt
  continue_line-IsCaused now (s, false) h = parse_rest-IsCaused now _ s h

  pub parse_clean_line-IsCaused :
      (now : ℕ) → Ensures AnyState (IsCause o w line s0) (parse_clean_line o w now line s0)
  unfolding parse_clean_line parse_startup IsCaused
  parse_clean_line-IsCaused now =
      Ensures-if AnyState (IsCause o w line s0) (not s0.init_started && not s0.init_finished) _ _
        (λ i.
          Ensures-bind StartFollows AnyState (IsCause o w line s0) (parse_startup o w line s0)
            (continue_line o w now line) (report_corpus-IsCaused _ s0 (refl, omega arith) i)
            (continue_line-IsCaused now))
        (λ _. parse_rest-IsCaused now _ s0 (refl, omega arith))
