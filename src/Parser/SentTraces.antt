-- ===== src/Parser/SentTraces.antt =====
-- The stack traces in the reports of the parser of libfuzzer.go.
use cifuzz.Base.{
  ℕ, ◌≡◌, refl, sym, subst, Bool, true, Option, none, some, List, [], ◌∷◌, ◌==◌, All, All-append,
  arith,
}
use cifuzz.Base.Result.{Result, ok, err, ◌>>=◌, Ensures, Ensures-bind, Ensures-if, Ensures-ok}
use cifuzz.Text.{Bytes, bytes_eq}
use cifuzz.Text.Scanner.{scan}
use cifuzz.Parser.Finding.{Finding, StackFrame}
use cifuzz.Parser.Report.{Report, FuzzingMetric}
use cifuzz.Parser.StackTrace.{ParserOptions, StackError}
use cifuzz.Parser.Frames.{parse_trace}
use cifuzz.Parser.Traces.{IsLocal}
use cifuzz.Parser.TraceShape.{parse_trace-IsLocal}
use cifuzz.Parser.State.{
  Options, World, State, ParseError, Step, send_report, send_finding, send_traced, finalize_finding,
  finalize_and_send, finalize_if_titled, finalize_if_any,
}
use cifuzz.Parser.Startup.{
  SeedCorpus, bad_number, not_found, seeds, seed_message, corpus_report, report_corpus,
  parse_startup,
}
use cifuzz.Parser.Machine.{
  count_line, handle_metric, handle_other_line, handle_finding, handle_text, note_jest_report,
  note_test_input, log_line, attach_test_input, parse_loop, parse, initial,
}
use cifuzz.Parser.Ledger.{send_report_lem}
use cifuzz.Parser.LedgerLines.{corpus_report-finding}
use cifuzz.Parser.Induction.{parse_loop_induction}

abbrev pub TraceOf : (List StackFrame → Type 0) → Option Finding → Type 0
TraceOf P none = Unit
TraceOf P (some f) = P f.stack_trace

-- Every finding that has been reported has a trace of which `P` holds.
unfoldable pub AllTraced : (List StackFrame → Type 0) → State → Type 0
AllTraced P s = All (λ r. TraceOf P r.finding) s.sent

module _ (P : List StackFrame → Type 0) (w : World)
    (traced : (logs : List Bytes) (trace : List StackFrame)
      → w.parse_stack_trace logs ≡ some trace
      → P trace) where
  pub IsTraced : Step → Type 0
  IsTraced m = Ensures (AllTraced P) (λ e. Unit) m

  send_report-IsTraced :
      (r : Report) (s : State) → AllTraced P s → TraceOf P r.finding → IsTraced (send_report w r s)
  unfolding AllTraced IsTraced
  send_report-IsTraced r s h k =
      send_report_lem (AllTraced P) w r s
        (All-append (λ r. (TraceOf P) r.finding) s.sent (r ∷ []) h (k, tt))

  send_traced-IsTraced :
      (f : Finding) (trace : Option (List StackFrame)) (s : State)
      → w.parse_stack_trace f.logs ≡ trace
      → AllTraced P s
      → IsTraced (send_traced w f trace s)
  unfolding send_traced send_finding AllTraced IsTraced
  send_traced-IsTraced f none s e h = tt
  send_traced-IsTraced f (some trace) s e h =
      Ensures-bind (AllTraced P) (AllTraced P) (λ e. Unit) (send_finding w _ s) _
        (send_report-IsTraced _ (record s { finding_reported = true }) h (traced f.logs trace e))
        (λ s' k. k)

  finalize_and_send-IsTraced : (s : State) → AllTraced P s → IsTraced (finalize_and_send w s)
  unfolding finalize_and_send finalize_finding IsTraced
  finalize_and_send-IsTraced s h = pending s.pending_finding
    where
      pending : (p : Option Finding) → IsTraced (finalize_finding w p s)
      pending none = tt
      pending (some f) = send_traced-IsTraced f _ s refl h

  finalize_if_any-IsTraced : (s : State) → AllTraced P s → IsTraced (finalize_if_any w s)
  unfolding finalize_if_any finalize_if_titled IsTraced
  finalize_if_any-IsTraced s h = pending s.pending_finding
    where
      pending : (p : Option Finding) → IsTraced (finalize_if_titled w p s)
      pending none = h
      pending (some f) =
          Ensures-if (AllTraced P) (λ e. Unit) (bytes_eq f.details []) (ok s)
            (finalize_and_send w s) (λ _. h) (λ _. finalize_and_send-IsTraced s h)

  handle_metric-IsTraced :
      (m : FuzzingMetric) (s : State) → AllTraced P s → IsTraced (handle_metric w m s)
  unfolding handle_metric IsTraced AllTraced
  handle_metric-IsTraced m s h =
      Ensures-bind (AllTraced P) (AllTraced P) (λ e. Unit) (send_report w _ s) _
        (send_report-IsTraced _ s h tt)
        (λ s' k.
          Ensures-if (AllTraced P) (λ e. Unit)
            (count_line s'.pending_finding s'.num_metrics_lines == 2)
            (finalize_and_send w (counted s')) (ok (counted s'))
            (λ _. finalize_and_send-IsTraced (counted s') k) (λ _. k))
    where
      counted : State → State
      counted s' = record s' {
        num_metrics_lines = count_line s'.pending_finding s'.num_metrics_lines;
      }

  handle_other_line-IsTraced :
      (line : Bytes) (s : State) → AllTraced P s → IsTraced (handle_other_line w line s)
  unfolding handle_other_line note_test_input attach_test_input log_line IsTraced AllTraced
  handle_other_line-IsTraced line s h = ground arith

  handle_finding-IsTraced :
      (line : Bytes) (f : Option Finding) (s : State)
      → AllTraced P s
      → IsTraced (handle_finding w line f s)
  unfolding handle_finding IsTraced AllTraced
  handle_finding-IsTraced line none s h = handle_other_line-IsTraced line s h
  handle_finding-IsTraced line (some f) s h =
      Ensures-bind (AllTraced P) (AllTraced P) (λ e. Unit) (finalize_if_any w s) _
        (finalize_if_any-IsTraced s h) (λ s' k. k)

  note_jest_report-AllTraced :
      (o : Options) (line : Bytes) (s : State)
      → AllTraced P s
      → AllTraced P (note_jest_report o line s)
  unfolding AllTraced
  note_jest_report-AllTraced o line s h = ground arith

  handle_text-IsTraced :
      (o : Options) (line : Bytes) (s : State) → AllTraced P s → IsTraced (handle_text o w line s)
  unfolding handle_text
  handle_text-IsTraced o line s h =
      handle_finding-IsTraced line _ _ (note_jest_report-AllTraced o line s h)

  IsStartTraced : Result ParseError (State × Bool) → Type 0
  IsStartTraced m = Ensures (λ r. (AllTraced P) r.0) (λ e. Unit) m

  send_start-IsTraced :
      (r : Report) (s : State)
      → AllTraced P s
      → TraceOf P r.finding
      → IsStartTraced (send_report w r s >>= λ s'. ok (s', true))
  unfolding IsStartTraced IsTraced
  send_start-IsTraced r s h k =
      Ensures-bind (AllTraced P) (λ r. (AllTraced P) r.0) (λ e. Unit) (send_report w r s) _
        (send_report-IsTraced r s h k) (λ s' q. q)

  seed_message-IsTraced :
      (o : Options) (line : Bytes) (c : SeedCorpus) (s : State)
      → AllTraced P s
      → IsStartTraced (seed_message o w line c s)
  unfolding IsStartTraced AllTraced
  seed_message-IsTraced o line bad_number s h = tt
  seed_message-IsTraced o line not_found s h = ground arith
  seed_message-IsTraced o line (seeds n) s h = send_start-IsTraced _ _ h tt

  report_corpus-IsTraced :
      (o : Options) (line : Bytes) (r : Option Report) (s : State)
      → corpus_report o line ≡ r
      → AllTraced P s
      → IsStartTraced (report_corpus o w line r s)
  unfolding report_corpus
  report_corpus-IsTraced o line none s e h = seed_message-IsTraced o line _ s h
  report_corpus-IsTraced o line (some r) s e h =
      send_start-IsTraced r s h (subst (TraceOf P) (sym (corpus_report-finding o line r e)) tt)

  pub parse-AllTraced :
      (o : Options) (clock : ℕ → ℕ) (input : Bytes)
      → Ensures (AllTraced P) (λ e. Unit) (parse o w clock input)
  unfolding parse AllTraced IsTraced IsStartTraced parse_startup
  parse-AllTraced o clock input =
      Ensures-bind (AllTraced P) (AllTraced P) (λ e. Unit)
        (parse_loop o w clock 0 (scan input).lines initial) (finalize_if_any w)
        (parse_loop_induction (AllTraced P) (λ e. Unit) o w
          (λ line s h. report_corpus-IsTraced o line _ s refl h)
          (λ now st s h. handle_metric-IsTraced _ _ h) (handle_text-IsTraced o) clock 0
          (scan input).lines initial tt)
        finalize_if_any-IsTraced

abbrev trace_of : Result StackError (List StackFrame) → Option (List StackFrame)
trace_of (ok fs) = some fs
trace_of (err e) = none

-- The environment with the stack trace parser of the program
abbrev pub with_traces : ParserOptions → World → World
with_traces o w = record w { parse_stack_trace = λ logs. trace_of (parse_trace o logs) }

trace_of-some :
    (r : Result StackError (List StackFrame)) (fs : List StackFrame)
    → trace_of r ≡ some fs
    → r ≡ ok fs
trace_of-some (ok gs) fs e = ground arith
trace_of-some (err x) fs e = ground arith

-- The two parsers together: when the whole output has been read without an error, the stack frames of
-- every finding that has been reported are local to the project, as far as `IsLocal` says.
pub parse-with_traces :
    (o : Options) (p : ParserOptions) (w : World) (clock : ℕ → ℕ) (input : Bytes) (s : State)
    → parse o (with_traces p w) clock input ≡ ok s
    → AllTraced (All (IsLocal p)) s
parse-with_traces o p w clock input s =
    Ensures-ok (AllTraced (All (IsLocal p))) (λ e. Unit)
      (parse-AllTraced (All (IsLocal p)) (with_traces p w)
        (λ logs trace e.
          parse_trace-IsLocal p logs trace (trace_of-some (parse_trace p logs) trace e))
        o clock input)
