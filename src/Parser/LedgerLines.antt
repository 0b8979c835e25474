-- ===== src/Parser/LedgerLines.antt =====
-- What has been reported and what is pending, before and behind one line of the output.
use cifuzz.Base.{
  ℕ, ◌≡◌, refl, sym, ap, subst, ◌==◌, ◌∙◌, Bool, true, Option, none, some, [], ◌∷◌, ◌++◌, arith,
  append-nil,
}
use cifuzz.Base.Result.{ok, ◌>>=◌, Ensures, Ensures-bind, Ensures-if}
use cifuzz.Parser.Induction.{noted_metric}
use cifuzz.Regex.{Captures}
use cifuzz.Text.{Bytes}
use cifuzz.Parser.Finding.{Finding}
use cifuzz.Parser.Report.{Report, FuzzingMetric}
use cifuzz.Parser.Metric.{Stats}
use cifuzz.Parser.State.{Options, World, State, send_report, finalize_and_send, finalize_if_any}
use cifuzz.Parser.Startup.{
  SeedCorpus, bad_number, not_found, seeds, report_corpus, corpus_report, seed_message,
}
use cifuzz.Parser.Machine.{
  note_test_input, log_line, handle_finding, accepted_finding, handle_metric, handle_other_line,
  attach_test_input, handle_text, note_jest_report, parse_rest, count_line,
}
use cifuzz.Parser.Accounting.{titles, listed, ledger, announced}
use cifuzz.Parser.Ledger.{
  account, IsKept, IsCleared, ledger_report, ledger_log, ledger_new, finalize_and_send-account,
  finalize_if_titled-account, send_report_lem,
}

handle_metric-account :
    (w : World) (m : FuzzingMetric) (s : State) → IsKept (account s) (handle_metric w m s)
unfolding handle_metric IsKept account
handle_metric-account w m s =
    Ensures-bind (λ s'. account s' ≡ account s) (λ s'. account s' ≡ account s) (λ e. Unit)
      (send_report w _ s) _
      (send_report_lem (λ s'. account s' ≡ account s) w _ s
        (ledger_report s.sent _ s.pending_finding refl))
      (λ s' h.
        Ensures-if (λ s'. account s' ≡ account s) (λ e. Unit)
          (count_line s'.pending_finding s'.num_metrics_lines == 2)
          (finalize_and_send w (counted s')) (ok (counted s'))
          (λ _.
            subst (λ l. IsKept l (finalize_and_send w (counted s'))) h
              (finalize_and_send-account w _))
          (λ _. h))
  where
    counted : State → State
    counted s' = record s' {
      num_metrics_lines = count_line s'.pending_finding s'.num_metrics_lines;
    }

attach_test_input-account :
    (w : World) (line path : Bytes) (s : State)
    → IsKept (account s) (attach_test_input w line path s)
unfolding attach_test_input IsKept account ledger
attach_test_input-account w line path s = ground arith

note_test_input-account :
    (w : World) (line : Bytes) (r : Option Captures) (s : State)
    → IsKept (account s) (note_test_input w line r s)
unfolding note_test_input IsKept
note_test_input-account w line none s = refl
note_test_input-account w line (some result) s = attach_test_input-account w line _ s

handle_other_line-account :
    (w : World) (line : Bytes) (s : State) → IsKept (account s) (handle_other_line w line s)
unfolding handle_other_line log_line account
handle_other_line-account w line s =
    subst (λ l. IsKept l (handle_other_line w line s)) (ledger_log _ line s.sent s.pending_finding)
      (note_test_input-account w line _ (log_line line s))

handle_finding-account :
    (w : World) (line : Bytes) (f : Option Finding) (s : State)
    → IsKept (account s ++ titles (listed f)) (handle_finding w line f s)
unfolding handle_finding finalize_if_any IsKept account IsCleared
handle_finding-account w line none s =
    subst (λ l. IsKept l (handle_other_line w line s)) (sym (append-nil _))
      (handle_other_line-account w line s)
handle_finding-account w line (some f) s =
    Ensures-bind (IsCleared (account s)) (λ s'. account s' ≡ account s ++ titles (f ∷ []))
      (λ e. Unit) (finalize_if_any w s) _ (finalize_if_titled-account w s.pending_finding s refl)
      (λ s' h. ledger_new s'.sent (some f) ∙ ap (λ l. l ++ titles (f ∷ [])) h)

note_jest_report-account :
    (o : Options) (line : Bytes) (s : State) → account (note_jest_report o line s) ≡ account s
unfolding account
note_jest_report-account o line s = ground arith

handle_text-account :
    (o : Options) (w : World) (line : Bytes) (s : State)
    → IsKept
        (account s ++ titles (listed (accepted_finding o line s.pending_finding)))
        (handle_text o w line s)
unfolding handle_text account
handle_text-account o w line s =
    subst (λ l. IsKept (l ++ titles (listed found)) (handle_finding w line found noted)) same
      (handle_finding-account w line found noted)
  where
    found : Option Finding
    found = accepted_finding o line s.pending_finding

    noted : State
    noted = note_jest_report o line s

    same : account noted ≡ account s
    same = note_jest_report-account o line s

pub parse_rest-account :
    (o : Options) (w : World) (now : ℕ) (line : Bytes) (r : Option Stats) (s : State)
    → IsKept
        (account s ++ titles (announced r (accepted_finding o line s.pending_finding)))
        (parse_rest o w now line r s)
unfolding account
parse_rest-account o w now line none s = handle_text-account o w line s
parse_rest-account o w now line (some st) s =
    subst (λ l. IsKept l (parse_rest o w now line (some st) s)) (sym (append-nil _))
      (handle_metric-account w _ (noted_metric now st s))

-- The startup reports no finding, and leaves the pending one.
unfoldable pub IsQuiet : State → State × Bool → Type 0
IsQuiet s r = (account r.0 ≡ account s) × (r.0.pending_finding ≡ s.pending_finding)

send_start-account :
    (w : World) (r : Report) (t s : State)
    → r.finding ≡ none
    → t.sent ≡ s.sent
    → t.pending_finding ≡ s.pending_finding
    → Ensures (IsQuiet s) (λ e. Unit) (send_report w r t >>= λ s'. ok (s', true))
unfolding IsQuiet account
send_start-account w r t s h e k =
    Ensures-bind (λ s'. IsQuiet s (s', true)) (IsQuiet s) (λ e. Unit) (send_report w r t) _
      (send_report_lem (λ s'. IsQuiet s (s', true)) w r t
        (
          ledger_report t.sent r t.pending_finding h
              ∙ ap (λ l. ledger l t.pending_finding) e
              ∙ ap (ledger s.sent) k,
          k,
        ))
      (λ s' q. q)

seed_message-account :
    (o : Options) (w : World) (line : Bytes) (c : SeedCorpus) (s : State)
    → Ensures (IsQuiet s) (λ e. Unit) (seed_message o w line c s)
unfolding IsQuiet account
seed_message-account o w line bad_number s = tt
seed_message-account o w line not_found s = ground arith
seed_message-account o w line (seeds n) s = send_start-account w _ _ s refl refl refl

pub corpus_report-finding :
    (o : Options) (line : Bytes) (r : Report) → corpus_report o line ≡ some r → r.finding ≡ none
unfolding corpus_report
corpus_report-finding o line r e = ground arith

pub report_corpus-account :
    (o : Options) (w : World) (line : Bytes) (r : Option Report) (s : State)
    → corpus_report o line ≡ r
    → Ensures (IsQuiet s) (λ e. Unit) (report_corpus o w line r s)
unfolding report_corpus
report_corpus-account o w line none s e = seed_message-account o w line _ s
report_corpus-account o w line (some r) s e =
    send_start-account w r s s (corpus_report-finding o line r e) refl refl
