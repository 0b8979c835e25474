-- ===== src/Parser/Induction.antt =====
-- Induction over the lines that the parser of libfuzzer.go reads.
use cifuzz.Base.{ℕ, ◌+◌, Bool, true, false, not, ◌&&◌, ◌||◌, Option, none, some, List, [], ◌∷◌}
use cifuzz.Base.Result.{◌>>=◌, Ensures, Ensures-bind, Ensures-if}
use cifuzz.Text.{Bytes, codes, bytes_eq}
use cifuzz.Parser.State.{Options, World, State, ParseError}
use cifuzz.Parser.Startup.{parse_startup}
use cifuzz.Parser.Machine.{
  handle_metric, handle_text, parse_rest, parse_clean_line, continue_line, parse_line, parse_loop,
}
use cifuzz.Parser.Metric.{Stats, metric_of, next_progress}

-- The state in which the report on a metrics line is sent
abbrev pub noted_metric : ℕ → Stats → State → State
noted_metric now st s = record s {
  progress = next_progress now st s.progress;
  init_finished = s.init_finished || bytes_eq st.status (codes "INITED");
}

module _ (I : State → Type 0) (R : ParseError → Type 0) (o : Options) (w : World)
    (startup : (line : Bytes) (s : State) → I s → Ensures (λ r. I r.0) R (parse_startup o w line s))
    (metric : (now : ℕ) (st : Stats) (s : State)
      → I s
      → Ensures I R (handle_metric w (metric_of now st s.progress) (noted_metric now st s)))
    (text : (line : Bytes) (s : State) → I s → Ensures I R (handle_text o w line s)) where
  parse_rest_induction :
      (now : ℕ) (line : Bytes) (r : Option Stats) (s : State)
      → I s
      → Ensures I R (parse_rest o w now line r s)
  parse_rest_induction now line none s h = text line s h
  parse_rest_induction now line (some st) s h = metric now st s h

  continue_line_induction :
      (now : ℕ) (line : Bytes) (r : State × Bool)
      → I r.0
      → Ensures I R (continue_line o w now line r)
  continue_line_induction now line (s, true) h = h
  continue_line_induction now line (s, false) h = parse_rest_induction now line _ s h

  pub parse_line_induction :
      (now : ℕ) (line : Bytes) (s : State) → I s → Ensures I R (parse_line o w now line s)
  unfolding parse_line parse_clean_line
  parse_line_induction now line s h =
      Ensures-if I R (not s.init_started && not s.init_finished)
        (parse_startup o w _ s >>= continue_line o w now _) (parse_rest o w now _ _ s)
        (λ _.
          Ensures-bind (λ r. I r.0) I R (parse_startup o w _ s) (continue_line o w now _)
            (startup _ s h) (continue_line_induction now _))
        (λ _. parse_rest_induction now _ _ s h)

  pub parse_loop_induction :
      (clock : ℕ → ℕ) (n : ℕ) (lines : List Bytes) (s : State)
      → I s
      → Ensures I R (parse_loop o w clock n lines s)
  unfolding parse_loop
  parse_loop_induction clock n [] s h = h
  parse_loop_induction clock n (line ∷ lines) s h =
      Ensures-bind I I R (parse_line o w (clock n) line s) (parse_loop o w clock (n + 1) lines)
        (parse_line_induction (clock n) line s h) (parse_loop_induction clock (n + 1) lines)
