-- ===== src/Parser/State.antt =====
-- The state of the output parser of libfuzzer.go, and how a report and the pending finding are sent.
use cifuzz.Base.{ℕ, Bool, true, Option, none, some, List, [], ◌∷◌, ◌++◌, if◌then◌else◌, length}
use cifuzz.Base.Result.{Result, ok, err, ◌>>=◌}
use cifuzz.Text.{Bytes, bytes_eq}
use cifuzz.Parser.Finding.{Finding, StackFrame, details_of_id}
use cifuzz.Parser.Report.{Report, running, no_report}
use cifuzz.Parser.ErrorId.{for_finding}
use cifuzz.Parser.Metric.{Progress}

-- `Options`; `has_startup_output` says whether `StartupOutputWriter` is set.
pub record Options : Type 0 where
  pub support_jazzer : Bool
  pub support_jazzer_js : Bool
  pub keep_color : Bool
  pub has_startup_output : Bool
  pub project_dir : Bytes

-- What the parser uses of its environment: the colour filter of pterm, the files, the writer for
-- the startup output, the context (cancelled before the n-th report is sent, or not), and the
-- stack trace parser, which may fail.
pub record World : Type 0 where
  pub remove_color : Bytes → Bytes
  pub read_file : Bytes → Option Bytes
  pub startup_write : Bytes → Bool
  pub cancelled : ℕ → Bool
  pub parse_stack_trace : List Bytes → Option (List StackFrame)

pub data ParseError : Type 0 where
  context_done startup_write_failed stack_trace_failed nil_pending_finding : ParseError
  invalid_seed_count : Bytes → ParseError
  read_failed : Bytes → ParseError
  unexpected_test_input : Bytes → ParseError

-- The fields of `parser`; `sent` is what went into the channel.
pub record State : Type 0 where
  pub finding_reported : Bool
  pub init_started : Bool
  pub init_finished : Bool
  pub pending_finding : Option Finding
  pub num_metrics_lines : ℕ
  pub found_beginning_of_jest_report : Bool
  pub progress : Progress
  pub sent : List Report
  pub startup_output : List Bytes

abbrev pub Step : Type 0
Step = Result ParseError State

-- `sendReport`
unfoldable pub send_report : World → Report → State → Step
send_report w r s =
    if w.cancelled (length s.sent)
    then err context_done
    else ok (record s { sent = s.sent ++ (r ∷ []) })

-- `sendFinding`
unfoldable pub send_finding : World → Finding → State → Step
unfolding send_report
send_finding w f s =
    send_report w (record no_report { status = running; finding = some f })
      (record s { finding_reported = true })

-- `finalizeAndSendPendingFinding` on a finding whose stack trace is parsed
unfoldable pub send_traced : World → Finding → Option (List StackFrame) → State → Step
unfolding send_finding
send_traced w f none s = err stack_trace_failed
send_traced w f (some trace) s = do
  s' ←
      send_finding w
        (record f {
          stack_trace = trace;
          more_details = some (details_of_id (for_finding f.details));
        })
        s
  ok (record s' { pending_finding = none; num_metrics_lines = 0 })

unfoldable pub finalize_finding : World → Option Finding → State → Step
unfolding send_traced
finalize_finding w none s = err nil_pending_finding
finalize_finding w (some f) s = send_traced w f (w.parse_stack_trace f.logs) s

-- `finalizeAndSendPendingFinding`; without a pending finding it is a nil dereference.
unfoldable pub finalize_and_send : World → State → Step
unfolding finalize_finding
finalize_and_send w s = finalize_finding w s.pending_finding s

unfoldable pub finalize_if_titled : World → Option Finding → State → Step
unfolding finalize_and_send bytes_eq
finalize_if_titled w none s = ok s
finalize_if_titled w (some f) s = if bytes_eq f.details [] then ok s else finalize_and_send w s

-- `finalizeAndSendPendingFindingIfAny`
unfoldable pub finalize_if_any : World → State → Step
unfolding finalize_if_titled
finalize_if_any w s = finalize_if_titled w s.pending_finding s
