-- ===== src/Parser/Failures.antt =====
-- The errors of `Parse` of libfuzzer.go, and the line or the end at which they come.
use cifuzz.Base.{
  ℕ, ◌+◌, ◌≤◌, ◌≡◌, ◌≢◌, ◌⊎◌, inl, inr, refl, ap, ◌∙◌, true, none, some, List, [], ◌∷◌, ◌++◌,
  length, arith,
}
use cifuzz.Base.Result.{ok, err, ◌>>=◌, Ensures-err}
use cifuzz.Text.{Bytes}
use cifuzz.Text.Scanner.{scan}
use cifuzz.Parser.Finding.{Finding}
use cifuzz.Parser.State.{
  Options, World, State, ParseError, Step, finalize_if_any, context_done, stack_trace_failed,
  nil_pending_finding,
}
use cifuzz.Parser.Machine.{clean_line, parse_line, parse_loop, parse, initial}
use cifuzz.Parser.Follows.{AnyState, finalize_if_any_lem}
use cifuzz.Parser.Causes.{IsCause, parse_clean_line-IsCaused}
use cifuzz.Parser.Pending.{parse-pending_finding}

-- What an error behind the last line says of the environment and of the state there
abbrev pub IsEndCause : World → State → ParseError → Type 0
IsEndCause w s context_done = (n : ℕ) × (length s.sent ≤ n) × (w.cancelled n ≡ true)
IsEndCause w s stack_trace_failed =
    (f : Finding) × (s.pending_finding ≡ some f) × (w.parse_stack_trace f.logs ≡ none)
IsEndCause w s _ = ⊥

module _ (o : Options) (w : World) (clock : ℕ → ℕ) where
  -- The error comes at a line: those before it are read, and it has its cause in that line and in the
  -- state before it.
  abbrev pub FailsAtLine : ℕ → List Bytes → State → ParseError → Type 0
  FailsAtLine n lines s e =
      (before : List Bytes) × (line : Bytes) × (behind : List Bytes) × (s' : State) × (lines
        ≡ before ++ (line ∷ behind))
      × (parse_loop o w clock n before s ≡ ok s')
      × IsCause o w (clean_line o w line) s' e

  -- The error comes at the end: all lines are read.
  abbrev pub FailsAtEnd : List Bytes → ParseError → Type 0
  FailsAtEnd lines e =
      (s : State) × (parse_loop o w clock 0 lines initial ≡ ok s) × IsEndCause w s e

  parse_line-fails :
      (now : ℕ) (line : Bytes) (s : State) (e : ParseError)
      → parse_line o w now line s ≡ err e
      → IsCause o w (clean_line o w line) s e
  unfolding parse_line
  parse_line-fails now line s e h =
      Ensures-err AnyState (IsCause o w (clean_line o w line) s)
        (parse_clean_line-IsCaused o w (clean_line o w line) s now) h

  FailsAtLine-cons :
      (n : ℕ) (line : Bytes) (lines : List Bytes) (s s' : State) (e : ParseError)
      → parse_line o w (clock n) line s ≡ ok s'
      → FailsAtLine (n + 1) lines s' e
      → FailsAtLine n (line ∷ lines) s e
  unfolding parse_loop
  FailsAtLine-cons n line lines s s' e q (before, line', behind, s'', split, run, cause) =
      (line ∷ before, line', behind, s'', ap (◌∷◌ line) split, rw q run, cause)

  parse_loop-fails :
      (n : ℕ) (lines : List Bytes) (s : State) (e : ParseError)
      → parse_loop o w clock n lines s ≡ err e
      → FailsAtLine n lines s e
  unfolding parse_loop
  parse_loop-fails n [] s e h = absurd (ground (arith, h))
  parse_loop-fails n (line ∷ lines) s e h =
      by_step (parse_line o w (clock n) line s) refl h
        (λ s' k. parse_loop-fails (n + 1) lines s' e k)
    where
      by_step :
          (r : Step)
          → parse_line o w (clock n) line s ≡ r
          → (r >>= (λ s'. parse_loop o w clock (n + 1) lines s')) ≡ err e
          → ((s' : State)
              → parse_loop o w clock (n + 1) lines s' ≡ err e
              → FailsAtLine (n + 1) lines s' e)
          → FailsAtLine n (line ∷ lines) s e
      by_step (ok s') q k ih = FailsAtLine-cons n line lines s s' e q (ih s' k)
      by_step (err e') q k ih =
          ([], line, lines, s, refl, refl, parse_line-fails (clock n) line s e (q ∙ k))

  finalize_if_any-fails :
      (s : State) (e : ParseError) → finalize_if_any w s ≡ err e → IsEndCause w s e
  finalize_if_any-fails s e h =
      Ensures-err AnyState (IsEndCause w s)
        (finalize_if_any_lem w s (IsEndCause w s) (λ n l c. (n, l, c)) (λ f p t. (f, p, t)) s
          (refl, omega arith))
        h

-- An error of Parse comes at a line or behind the last one, never for a missing pending finding. It comes
-- from the context only if that is cancelled, from the stack trace parser only if that fails on the logs of
-- the finding that is pending. On a line, before the initialization, it comes from the writer of the
-- startup output if that fails on the line, or from the number of a seed corpus message; otherwise
-- from a test input that the line names, if that cannot be read, or if no finding is pending.
pub parse-fails :
    (o : Options) (w : World) (clock : ℕ → ℕ) (input : Bytes) (e : ParseError)
    → parse o w clock input ≡ err e
    → (FailsAtLine o w clock 0 (scan input).lines initial e
        ⊎ FailsAtEnd o w clock (scan input).lines e)
      × (e ≢ nil_pending_finding)
parse-fails o w clock input e h = (
  unfold parse in by_loop (parse_loop o w clock 0 (scan input).lines initial) refl h,
  λ n. parse-pending_finding o w clock input (h ∙ ap err n),
)
  where
    by_loop :
        (r : Step)
        → parse_loop o w clock 0 (scan input).lines initial ≡ r
        → (r >>= (λ s. finalize_if_any w s)) ≡ err e
        → FailsAtLine o w clock 0 (scan input).lines initial e
          ⊎ FailsAtEnd o w clock (scan input).lines e
    by_loop (ok s) q k = inr (s, q, finalize_if_any-fails o w clock s e k)
    by_loop (err e') q k = inl (parse_loop-fails o w clock 0 (scan input).lines initial e (q ∙ k))
