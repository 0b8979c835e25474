-- ===== src/Parser/Follows.antt =====
-- The errors of sending a report or the pending finding in libfuzzer.go, from the state before.
use cifuzz.Base.{
  ℕ, ◌≤◌, ◌≡◌, refl, sym, ◌∙◌, true, Option, none, some, List, [], ◌∷◌, length, length-append,
  arith,
}
use cifuzz.Base.Result.{Ensures, Ensures-bind, Ensures-if}
use cifuzz.Text.{bytes_eq}
use cifuzz.Parser.Finding.{Finding, StackFrame}
use cifuzz.Parser.Report.{Report}
use cifuzz.Parser.State.{
  World, State, ParseError, send_report, send_finding, send_traced, finalize_finding,
  finalize_and_send, finalize_if_titled, finalize_if_any, context_done, stack_trace_failed,
  nil_pending_finding,
}

-- Between the states one finding is pending, and reports may have been sent.
abbrev pub Follows : State → State → Type 0
Follows s s' = (s'.pending_finding ≡ s.pending_finding) × (length s.sent ≤ length s'.sent)

abbrev pub AnyState : State → Type 0
AnyState s = Unit

module _ (w : World) (s0 : State) (R : ParseError → Type 0)
    (done : (n : ℕ) → length s0.sent ≤ n → w.cancelled n ≡ true → R context_done)
    (trace : (f : Finding)
      → s0.pending_finding ≡ some f
      → w.parse_stack_trace f.logs ≡ none
      → R stack_trace_failed) where
  pub send_report-Follows :
      (r : Report) (s : State) → Follows s0 s → Ensures (Follows s0) R (send_report w r s)
  unfolding send_report
  send_report-Follows r s h =
      Ensures-if (Follows s0) R (w.cancelled (length s.sent)) _ _ (λ e. done (length s.sent) h.1 e)
        (λ _. (h.0, omega (arith, h.1, length-append s.sent (r ∷ []))))

  send_traced_lem :
      (f : Finding) (t : Option (List StackFrame)) (s : State)
      → Follows s0 s
      → s.pending_finding ≡ some f
      → w.parse_stack_trace f.logs ≡ t
      → Ensures AnyState R (send_traced w f t s)
  unfolding send_traced send_finding
  send_traced_lem f none s h p e = trace f (sym h.0 ∙ p) e
  send_traced_lem f (some frames) s h p e =
      Ensures-bind (Follows s0) AnyState R (send_finding w _ s) _
        (send_report-Follows _ (record s { finding_reported = true }) h) (λ s' _. tt)

  finalize_finding_lem :
      (p : Option Finding) (s : State)
      → Follows s0 s
      → s.pending_finding ≡ p
      → (p ≡ none → R nil_pending_finding)
      → Ensures AnyState R (finalize_finding w p s)
  unfolding finalize_finding
  finalize_finding_lem none s h e nil = nil refl
  finalize_finding_lem (some f) s h e nil = send_traced_lem f _ s h e refl

  pub finalize_and_send_lem :
      (s : State)
      → Follows s0 s
      → (s.pending_finding ≡ none → R nil_pending_finding)
      → Ensures AnyState R (finalize_and_send w s)
  unfolding finalize_and_send
  finalize_and_send_lem s h nil = finalize_finding_lem s.pending_finding s h refl nil

  pub finalize_if_any_lem : (s : State) → Follows s0 s → Ensures AnyState R (finalize_if_any w s)
  unfolding finalize_if_any finalize_if_titled
  finalize_if_any_lem s h = pending s.pending_finding refl
    where
      pending :
          (p : Option Finding)
          → s.pending_finding ≡ p
          → Ensures AnyState R (finalize_if_titled w p s)
      pending none e = tt
      pending (some f) e =
          Ensures-if AnyState R (bytes_eq f.details []) _ _ (λ _. tt)
            (λ _. finalize_and_send_lem s h (λ n. cc (e, n)))
