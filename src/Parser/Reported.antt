-- ===== src/Parser/Reported.antt =====
-- The findings that the parser of libfuzzer.go hears of, and those it reports, over a whole output.
use cifuzz.Base.{
  ℕ, ◌+◌, ◌≡◌, refl, sym, ap, subst, ◌∙◌, Bool, true, false, not, ◌&&◌, List, [], ◌∷◌, ◌++◌,
  append-nil, append_assoc, if◌then◌else◌,
}
use cifuzz.Base.Result.{Result, ok, err, ◌>>=◌, Ensures, Ensures-bind, Ensures-map, Ensures-ok}
use cifuzz.Text.{Bytes}
use cifuzz.Text.Scanner.{scan}
use cifuzz.Parser.Finding.{Finding}
use cifuzz.Parser.Metric.{parse_stats}
use cifuzz.Parser.State.{Options, World, State, ParseError, finalize_if_any, Step}
use cifuzz.Parser.Startup.{parse_startup}
use cifuzz.Parser.Machine.{
  accepted_finding, parse_line, clean_line, parse_rest, parse, parse_loop, initial,
  parse_clean_line, continue_line,
}
use cifuzz.Parser.Accounting.{
  titles, titles-append, sent_findings, ledger, heard_line, announced, is_done, behind, heard,
}
use cifuzz.Parser.Ledger.{account, IsKept, IsCleared, finalize_if_titled-account}
use cifuzz.Parser.LedgerLines.{IsQuiet, report_corpus-account, parse_rest-account}

-- What is heard of a line whose first part has the result `m`
continue_line-account :
    (o : Options) (w : World) (now : ℕ) (line : Bytes) (s : State)
    (m : Result ParseError (State × Bool))
    → Ensures (IsQuiet s) (λ e. Unit) m
    → IsKept
        (account s
          ++ titles (
              if is_done m
              then []
              else announced (parse_stats line) (accepted_finding o line s.pending_finding)))
        (m >>= continue_line o w now line)
unfolding IsQuiet IsKept
continue_line-account o w now line s (ok (s', true)) h = h.0 ∙ sym (append-nil _)
continue_line-account o w now line s (ok (s', false)) h =
    subst (λ l. IsKept l (parse_rest o w now line (parse_stats line) s')) same
      (parse_rest-account o w now line (parse_stats line) s')
  where
    same :
        account s'
          ++ titles (announced (parse_stats line) (accepted_finding o line s'.pending_finding))
        ≡ account s
          ++ titles (announced (parse_stats line) (accepted_finding o line s.pending_finding))
    same =
        ap
          (λ l.
            l ++ titles (announced (parse_stats line) (accepted_finding o line s'.pending_finding)))
          h.0
        ∙ ap (λ p. account s ++ titles (announced (parse_stats line) (accepted_finding o line p)))
            h.1
continue_line-account o w now line s (err e) h = tt

IsKept-if :
    (b : Bool) (l : List Bytes) (fs gs : List Finding) (m n : Step)
    → IsKept (l ++ titles fs) m
    → IsKept (l ++ titles gs) n
    → IsKept (l ++ titles (if b then fs else gs)) (if b then m else n)
IsKept-if true l fs gs m n h k = h
IsKept-if false l fs gs m n h k = k

parse_line-account :
    (o : Options) (w : World) (now : ℕ) (line : Bytes) (s : State)
    → IsKept
        (account s ++ titles (heard_line o w (clean_line o w line) s))
        (parse_line o w now line s)
unfolding parse_line parse_clean_line heard_line parse_startup
parse_line-account o w now line s =
    IsKept-if (not s.init_started && not s.init_finished) (account s) _ _ _ _
      (continue_line-account o w now _ s _ (report_corpus-account o w _ _ s refl))
      (parse_rest-account o w now _ _ s)

-- One line, and the lines behind it
IsKept-bind :
    (l : List Bytes) (fs : List Finding) (m : Step) (next : State → List Finding) (f : State → Step)
    → IsKept (l ++ titles fs) m
    → ((s : State) → IsKept (account s ++ titles (next s)) (f s))
    → IsKept (l ++ titles (fs ++ behind m next)) (m >>= f)
unfolding IsKept
IsKept-bind l fs (ok s) next f h k = subst (λ l. IsKept l (f s)) same (k s)
  where
    same : account s ++ titles (next s) ≡ l ++ titles (fs ++ next s)
    same =
        ap (λ l. l ++ titles (next s)) h
        ∙ append_assoc l _ _
        ∙ ap (λ t. l ++ t) (sym (titles-append fs (next s)))
IsKept-bind l fs (err e) next f h k = tt

parse_loop-account :
    (o : Options) (w : World) (clock : ℕ → ℕ) (n : ℕ) (lines : List Bytes) (s : State)
    → IsKept (account s ++ titles (heard o w clock n lines s)) (parse_loop o w clock n lines s)
unfolding parse_loop heard IsKept
parse_loop-account o w clock n [] s = sym (append-nil _)
parse_loop-account o w clock n (line ∷ lines) s =
    IsKept-bind (account s) (heard_line o w (clean_line o w line) s)
      (parse_line o w (clock n) line s) (heard o w clock (n + 1) lines)
      (parse_loop o w clock (n + 1) lines) (parse_line-account o w (clock n) line s)
      (parse_loop-account o w clock (n + 1) lines)

-- When the parser has read the whole output without an error, it has reported exactly the findings
-- that the lines announced, in their order, each once, those without details left aside.
pub parse-reported :
    (o : Options) (w : World) (clock : ℕ → ℕ) (input : Bytes) (s : State)
    → parse o w clock input ≡ ok s
    → titles (sent_findings s.sent) ≡ titles (heard o w clock 0 (scan input).lines initial)
unfolding parse account ledger IsCleared IsKept finalize_if_any
parse-reported o w clock input s e =
    Ensures-ok (λ s'. titles (sent_findings s'.sent) ≡ all) (λ e. Unit)
      (Ensures-bind (λ s'. account s' ≡ all) (λ s'. titles (sent_findings s'.sent) ≡ all)
        (λ e. Unit) (parse_loop o w clock 0 _ initial) (finalize_if_any w)
        (parse_loop-account o w clock 0 _ initial)
        (λ s' h.
          Ensures-map (IsCleared (account s')) _ (λ e. Unit) (finalize_if_any w s')
            (λ t k. sym (append-nil _) ∙ k ∙ h)
            (finalize_if_titled-account w s'.pending_finding s' refl)))
      e
  where
    all : List Bytes
    all = titles (heard o w clock 0 (scan input).lines initial)
