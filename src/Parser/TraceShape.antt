-- ===== src/Parser/TraceShape.antt =====
-- The shape of the traces of stacktrace.go: where their files lie, and the order of their frames.
use cifuzz.Base.{◌<◌, ◌≡◌, false, List, [], ◌∷◌, ◌++◌, All, All-append, arith}
use cifuzz.Base.Result.{ok, Ensures-ok}
use cifuzz.Text.{Bytes}
use cifuzz.Parser.Finding.{StackFrame}
use cifuzz.Parser.StackTrace.{ParserOptions}
use cifuzz.Parser.Frames.{parse_trace, begins_new_trace, is_fuzz_test, last_frame, not_behind}
use cifuzz.Parser.Traces.{IsLocal, AnyError, parse_trace_induction}

-- Every frame of a parsed trace has numbers of 32 bits, and a source file that is not reached by ".."
-- from the project unless Jazzer is supported, and that is not in node_modules when Jazzer.js is.
pub parse_trace-IsLocal :
    (o : ParserOptions) (logs : List Bytes) (fs : List StackFrame)
    → parse_trace o logs ≡ ok fs
    → All (IsLocal o) fs
parse_trace-IsLocal o logs fs = Ensures-ok (All (IsLocal o)) AnyError (
    parse_trace_induction o (All (IsLocal o)) (All (IsLocal o)) (λ fs h. h)
      (λ fs f h k e. All-append (IsLocal o) fs (f ∷ []) h (k, tt))
      (λ fs f h k e d. All-append (IsLocal o) fs (f ∷ []) h (k, tt)) logs tt)

-- Each frame has a higher number than the one before it.
abbrev pub IsIncreasing : List StackFrame → Type 0
IsIncreasing [] = Unit
IsIncreasing (f ∷ []) = Unit
IsIncreasing (f ∷ (h ∷ fs)) = (f.frame_number < h.frame_number) × IsIncreasing (h ∷ fs)

-- No frame but the last is that of the fuzz test.
abbrev pub EndsAtFuzzTest : List StackFrame → Type 0
EndsAtFuzzTest [] = Unit
EndsAtFuzzTest (f ∷ []) = Unit
EndsAtFuzzTest (f ∷ (h ∷ fs)) = (is_fuzz_test f ≡ false) × EndsAtFuzzTest (h ∷ fs)

abbrev NoFuzzTest : List StackFrame → Type 0
NoFuzzTest fs = All (λ f. is_fuzz_test f ≡ false) fs

IsIncreasing-append :
    (fs : List StackFrame) (f : StackFrame)
    → IsIncreasing fs
    → not_behind (last_frame fs) f ≡ false
    → IsIncreasing (fs ++ (f ∷ []))
IsIncreasing-append [] f h e = tt
IsIncreasing-append (k ∷ []) f h e = ground arith
IsIncreasing-append (k ∷ (l ∷ fs)) f h e = (h.0, IsIncreasing-append (l ∷ fs) f h.1 e)

EndsAtFuzzTest-append :
    (fs : List StackFrame) (f : StackFrame) → NoFuzzTest fs → EndsAtFuzzTest (fs ++ (f ∷ []))
EndsAtFuzzTest-append [] f h = tt
EndsAtFuzzTest-append (k ∷ []) f h = (h.0, tt)
EndsAtFuzzTest-append (k ∷ (l ∷ fs)) f h = (h.0, EndsAtFuzzTest-append (l ∷ fs) f h.1)

EndsAtFuzzTest-self : (fs : List StackFrame) → NoFuzzTest fs → EndsAtFuzzTest fs
EndsAtFuzzTest-self [] h = tt
EndsAtFuzzTest-self (f ∷ []) h = tt
EndsAtFuzzTest-self (f ∷ (k ∷ fs)) h = (h.0, EndsAtFuzzTest-self (k ∷ fs) h.1)

in_order :
    (o : ParserOptions) (fs : List StackFrame) (f : StackFrame)
    → o.support_jazzer ≡ false
    → o.support_jazzer_js ≡ false
    → begins_new_trace o fs f ≡ false
    → not_behind (last_frame fs) f ≡ false
unfolding begins_new_trace
in_order o fs f j js e = ground arith

-- The frames of a trace without Jazzer and Jazzer.js have strictly increasing numbers, and none but
-- the last is that of the fuzz test.
pub parse_trace-IsIncreasing :
    (o : ParserOptions) (logs : List Bytes) (fs : List StackFrame)
    → o.support_jazzer ≡ false
    → o.support_jazzer_js ≡ false
    → parse_trace o logs ≡ ok fs
    → IsIncreasing fs × EndsAtFuzzTest fs
parse_trace-IsIncreasing o logs fs j js =
    Ensures-ok (λ fs. IsIncreasing fs × EndsAtFuzzTest fs) AnyError
      (parse_trace_induction o (λ fs. IsIncreasing fs × NoFuzzTest fs)
        (λ fs. IsIncreasing fs × EndsAtFuzzTest fs) (λ fs h. (h.0, EndsAtFuzzTest-self fs h.1))
        (λ fs f h k e.
          (IsIncreasing-append fs f h.0 (in_order o fs f j js e), EndsAtFuzzTest-append fs f h.1))
        (λ fs f h k e d. (
          IsIncreasing-append fs f h.0 (in_order o fs f j js e),
          All-append (λ f. is_fuzz_test f ≡ false) fs (f ∷ []) h.1 (d, tt),
        ))
        logs (tt, tt))
