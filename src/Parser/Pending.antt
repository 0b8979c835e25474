-- ===== src/Parser/Pending.antt =====
-- The pending finding of the parser of libfuzzer.go, and the count of metrics lines that goes with it.
use cifuzz.Base.{ℕ, ◌≤◌, ◌≡◌, ◌≢◌, refl, Bool, Option, none, some, arith}
use cifuzz.Parser.Induction.{parse_loop_induction}
use cifuzz.Base.Result.{Result, err, Ensures, Ensures-bind, Ensures-err}
use cifuzz.Text.{Bytes}
use cifuzz.Parser.Finding.{Finding}
use cifuzz.Parser.Report.{Report, FuzzingMetric}
use cifuzz.Parser.State.{
  Options, World, State, ParseError, nil_pending_finding, Step, send_report, send_finding,
  finalize_and_send, finalize_finding, finalize_if_titled, send_traced, finalize_if_any,
}
use cifuzz.Parser.Startup.{report_corpus, parse_startup}
use cifuzz.Parser.Machine.{
  handle_metric, handle_other_line, handle_text, handle_finding, note_test_input, log_line,
  attach_test_input, parse_loop, parse, initial,
}

-- Without a pending finding nothing is counted; with one, less than two lines are.
abbrev pub IsCount : Option Finding → ℕ → Type 0
IsCount none n = n ≡ 0
IsCount (some f) n = n ≤ 1

pub IsCounted : State → Type 0
IsCounted s = IsCount s.pending_finding s.num_metrics_lines

abbrev pub IsNoNil : ParseError → Type 0
IsNoNil e = e ≢ nil_pending_finding

pub IsSound : Step → Type 0
IsSound m = Ensures IsCounted IsNoNil m

send_report-IsCounted :
    (w : World) (r : Report) (s : State) → IsCounted s → IsSound (send_report w r s)
unfolding send_report IsCounted IsSound
send_report-IsCounted w r s h = ground arith

finalize_if_any-IsCounted : (w : World) (s : State) → IsCounted s → IsSound (finalize_if_any w s)
unfolding finalize_if_any finalize_if_titled finalize_finding send_traced finalize_and_send
    send_finding send_report IsCounted IsSound
finalize_if_any-IsCounted w s h = ground arith

handle_metric-IsCounted :
    (w : World) (m : FuzzingMetric) (s : State) → IsCounted s → IsSound (handle_metric w m s)
unfolding handle_metric finalize_finding send_traced finalize_and_send send_finding send_report
    IsCounted IsSound
handle_metric-IsCounted w m s h = ground arith

handle_text-IsCounted :
    (o : Options) (w : World) (line : Bytes) (s : State)
    → IsCounted s
    → IsSound (handle_text o w line s)
unfolding handle_text handle_finding note_test_input log_line handle_other_line attach_test_input
    finalize_if_titled finalize_finding send_traced finalize_if_any finalize_and_send send_finding
    send_report IsCounted IsSound
handle_text-IsCounted o w line s h = ground arith

-- The first part of a line: the state it leaves, whatever it says about the line
IsStartSound : Result ParseError (State × Bool) → Type 0
IsStartSound m = Ensures (λ r. IsCounted r.0) IsNoNil m

parse_startup-IsCounted :
    (o : Options) (w : World) (line : Bytes) (s : State)
    → IsCounted s
    → IsStartSound (parse_startup o w line s)
unfolding parse_startup report_corpus send_report IsCounted IsStartSound
parse_startup-IsCounted o w line s h = ground arith

-- `Parse` never follows a nil pointer: a pending finding is sent only while there is one.
pub parse-pending_finding :
    (o : Options) (w : World) (clock : ℕ → ℕ) (input : Bytes)
    → parse o w clock input ≢ err nil_pending_finding
unfolding parse IsSound IsStartSound IsCounted
parse-pending_finding o w clock input e =
    Ensures-err IsCounted IsNoNil
      (Ensures-bind IsCounted IsCounted IsNoNil (parse_loop o w clock 0 _ initial)
        (finalize_if_any w)
        (parse_loop_induction IsCounted IsNoNil o w (parse_startup-IsCounted o w)
          (λ now st s h. handle_metric-IsCounted w _ _ h) (handle_text-IsCounted o w) clock 0 _
          initial refl)
        (finalize_if_any-IsCounted w))
      e refl
