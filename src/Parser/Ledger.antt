-- ===== src/Parser/Ledger.antt =====
-- What the parser of libfuzzer.go has reported and what is pending, when a finding is sent.
use cifuzz.Base.{
  ◌≡◌, refl, sym, ap, ◌∙◌, Bool, true, false, Option, none, some, List, [], ◌∷◌, ◌++◌, arith,
  append-nil, length,
}
use cifuzz.Base.Result.{ok, err, Ensures, Ensures-bind, Ensures-if, Ensures-map}
use cifuzz.Text.{Bytes, bytes_eq}
use cifuzz.Parser.Finding.{Finding, StackFrame}
use cifuzz.Parser.Report.{Report}
use cifuzz.Parser.State.{
  World, State, send_report, send_finding, finalize_and_send, Step, send_traced, finalize_finding,
  finalize_if_titled, context_done,
}
use cifuzz.Parser.Machine.{append_log}
use cifuzz.Parser.Accounting.{
  titles, titles-append, listed, sent_findings, sent_findings-append, ledger,
}

pub ledger_report :
    (sent : List Report) (r : Report) (p : Option Finding)
    → r.finding ≡ none
    → ledger (sent ++ (r ∷ [])) p ≡ ledger sent p
unfolding ledger
ledger_report sent r p h = grind (arith, sent_findings-append sent (r ∷ []), append-nil)

pub ledger_send :
    (sent : List Report) (r : Report) (f g : Finding)
    → r.finding ≡ some g
    → g.details ≡ f.details
    → ledger (sent ++ (r ∷ [])) none ≡ ledger sent (some f)
unfolding ledger
ledger_send sent r f g h k = grind (
  arith,
  sent_findings-append sent (r ∷ []),
  titles-append (sent_findings sent) (g ∷ []),
  append-nil,
)

pub ledger_log :
    (keep : Bool) (line : Bytes) (sent : List Report) (p : Option Finding)
    → ledger sent (append_log keep line p) ≡ ledger sent p
unfolding ledger
ledger_log keep line sent none = refl
ledger_log true line sent (some f) = refl
ledger_log false line sent (some f) = refl

pub ledger_new :
    (sent : List Report) (p : Option Finding)
    → ledger sent p ≡ ledger sent none ++ titles (listed p)
unfolding ledger
ledger_new sent p = grind (arith, append-nil)

-- The last finding is to be no more than what the account says.
unfoldable pub account : State → List Bytes
account s = ledger s.sent s.pending_finding

unfoldable pub IsKept : List Bytes → Step → Type 0
IsKept l m = Ensures (λ s'. account s' ≡ l) (λ e. Unit) m

module _ (Q : State → Type 0) (w : World) where
  pub send_report_lem :
      (r : Report) (s : State)
      → Q (record s { sent = s.sent ++ (r ∷ []) })
      → Ensures Q (λ e. Unit) (send_report w r s)
  unfolding send_report
  send_report_lem r s h =
      Ensures-if Q (λ e. Unit) (w.cancelled (length s.sent)) (err context_done)
        (ok (record s { sent = s.sent ++ (r ∷ []) })) (λ _. tt) (λ _. h)

-- Nothing is pending, and the account says `l`.
IsFlushed : List Bytes → State → Type 0
IsFlushed l s' = (s'.pending_finding ≡ none) × (ledger s'.sent none ≡ l)

-- Nothing that has details is pending.
unfoldable pub IsCleared : List Bytes → State → Type 0
IsCleared l s' = ledger s'.sent none ≡ l

send_traced-account :
    (w : World) (f : Finding) (trace : Option (List StackFrame)) (s : State)
    → s.pending_finding ≡ some f
    → Ensures (IsFlushed (account s)) (λ e. Unit) (send_traced w f trace s)
unfolding IsFlushed IsCleared send_traced send_finding send_report account
send_traced-account w f none s e = tt
send_traced-account w f (some trace) s e =
    Ensures-bind (IsCleared (account s)) (IsFlushed (account s)) (λ e. Unit) (send_finding w _ s) _
      (send_report_lem (IsCleared (account s)) w _ (record s { finding_reported = true })
        (ledger_send s.sent _ f _ refl refl ∙ ap (ledger s.sent) (sym e)))
      (λ s' h. (refl, h))

finalize_finding-account :
    (w : World) (p : Option Finding) (s : State)
    → s.pending_finding ≡ p
    → Ensures (IsFlushed (account s)) (λ e. Unit) (finalize_finding w p s)
unfolding finalize_finding
finalize_finding-account w none s e = tt
finalize_finding-account w (some f) s e = send_traced-account w f _ s e

pub finalize_and_send-account : (w : World) (s : State) → IsKept (account s) (finalize_and_send w s)
unfolding finalize_and_send IsKept IsFlushed account
finalize_and_send-account w s =
    Ensures-map (IsFlushed (account s)) (λ s'. account s' ≡ account s) (λ e. Unit)
      (finalize_and_send w s) (λ s' h. ap (ledger s'.sent) h.0 ∙ h.1)
      (finalize_finding-account w _ s refl)

untitled :
    (sent : List Report) (f : Finding)
    → bytes_eq f.details [] ≡ true
    → ledger sent none ≡ ledger sent (some f)
unfolding ledger
untitled sent f h = grind arith

pub finalize_if_titled-account :
    (w : World) (p : Option Finding) (s : State)
    → s.pending_finding ≡ p
    → Ensures (IsCleared (account s)) (λ e. Unit) (finalize_if_titled w p s)
unfolding finalize_if_titled finalize_and_send IsCleared account IsFlushed
finalize_if_titled-account w none s e = ap (ledger s.sent) (sym e)
finalize_if_titled-account w (some f) s e =
    Ensures-if (IsCleared (account s)) (λ e. Unit) (bytes_eq f.details []) (ok s)
      (finalize_and_send w s) (λ h. untitled s.sent f h ∙ ap (ledger s.sent) (sym e))
      (λ _.
        Ensures-map (IsFlushed (account s)) (IsCleared (account s)) (λ e. Unit)
          (finalize_and_send w s) (λ s' h. h.1) (finalize_finding-account w _ s refl))
