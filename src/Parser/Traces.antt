-- ===== src/Parser/Traces.antt =====
-- The frames that `Parse` of stacktrace.go returns.
use cifuzz.Base.{
  ◌^◌, ◌<◌, ◌≡◌, refl, Bool, true, false, not, ◌||◌, Option, none, some, List, [], ◌∷◌, ◌++◌, arith,
  if◌then◌else◌,
}
use cifuzz.Base.Result.{Result, ok, err, ◌>>=◌, Ensures, Ensures-bind, Ensures-if}
use cifuzz.Text.{Bytes, codes, has_prefix, contains}
use cifuzz.Text.FilePath.{is_abs, rel}
use cifuzz.Regex.{Captures, find_named_groups_match, group_text}
use cifuzz.Parser.Finding.{StackFrame}
use cifuzz.Parser.StackTrace.{ParserOptions, StackError, java_source_file_path, ub_san_diag_pattern}
use cifuzz.Parser.Frames.{
  below_project, relative_path, without_node_modules, jazzer_path, mapped_path, validate_relative,
  validate_source_file, parse_uint32, optional_uint32, frame_of, location_of, from_match,
  frame_match, stack_frame_from_line, source_location_from_line, next_frame, begins_new_trace,
  is_fuzz_test, frames_loop, parse_source_location, or_location, or_rest, parse_trace,
}

-- A path below the project, unless the source map of Jazzer gives it, and with Jazzer.js none of
-- node_modules
abbrev pub IsAllowed : ParserOptions → Bytes → Type 0
IsAllowed o path =
    (o.support_jazzer || not (has_prefix path (codes "..")) ≡ true)
    × (not o.support_jazzer_js || not (contains path (codes "node_modules")) ≡ true)

-- An allowed frame, whose numbers are those of `uint32`
abbrev pub IsLocal : ParserOptions → StackFrame → Type 0
IsLocal o f =
    IsAllowed o f.source_file
    × ((f.line < 2 ^ 32) × ((f.column < 2 ^ 32) × (f.frame_number < 2 ^ 32)))

pub AnyError : StackError → Type 0
AnyError e = Unit

below_project-IsAllowed :
    (p : Option Bytes) (path : Bytes)
    → below_project p ≡ some path
    → has_prefix path (codes "..") ≡ false
unfolding below_project
below_project-IsAllowed none path e = ground arith
below_project-IsAllowed (some q) path e = ground arith

without_node_modules-IsAllowed :
    (o : ParserOptions) (path : Bytes)
    → (o.support_jazzer || not (has_prefix path (codes "..")) ≡ true)
    → IsAllowed o (without_node_modules o.support_jazzer_js path)
unfolding without_node_modules has_prefix contains
without_node_modules-IsAllowed o path h = ground arith

mapped_path-IsAllowed :
    (o : ParserOptions) (filter : Bool) (source_file function path : Bytes)
    → has_prefix path (codes "..") ≡ false
    → Ensures
        (λ r. o.support_jazzer || not (has_prefix r.0 (codes "..")) ≡ true)
        AnyError
        (mapped_path o filter source_file function path)
unfolding mapped_path AnyError
mapped_path-IsAllowed o filter source_file function path h =
    by_engine o.support_jazzer (java_source_file_path o source_file function)
  where
    by_engine :
        (jazzer : Bool) (r : Result StackError Bytes)
        → Ensures
            (λ r. jazzer || not (has_prefix r.0 (codes "..")) ≡ true)
            AnyError
            (if jazzer then r >>= (λ p. ok (jazzer_path filter path p)) else ok (path, filter))
    by_engine true (ok p) = refl
    by_engine true (err e) = tt
    by_engine false r = ground (arith, h)

validate_relative-IsAllowed :
    (o : ParserOptions) (filter : Bool) (source_file function : Bytes) (p : Option Bytes)
    → ((path : Bytes) → p ≡ some path → has_prefix path (codes "..") ≡ false)
    → Ensures (λ r. IsAllowed o r.0) AnyError (validate_relative o filter source_file function p)
unfolding validate_relative has_prefix contains AnyError
validate_relative-IsAllowed o filter source_file function none h = ground arith
validate_relative-IsAllowed o filter source_file function (some path) h =
    Ensures-bind (λ r. o.support_jazzer || not (has_prefix r.0 (codes "..")) ≡ true)
      (λ r. IsAllowed o r.0) AnyError (mapped_path o filter source_file function path) _
      (mapped_path-IsAllowed o filter source_file function path (h path refl))
      (λ r k. without_node_modules-IsAllowed o r.0 k)

validate_source_file-IsAllowed :
    (o : ParserOptions) (filter : Bool) (source_file function : Bytes)
    → Ensures (λ r. IsAllowed o r.0) AnyError (validate_source_file o filter source_file function)
unfolding validate_source_file relative_path
validate_source_file-IsAllowed o filter source_file function =
    validate_relative-IsAllowed o filter source_file function (relative_path o source_file) (
      below_project-IsAllowed
        (if is_abs source_file then rel o.project_dir source_file else some source_file))

parse_uint32-lt : (s : Bytes) → Ensures (λ n. n < 2 ^ 32) AnyError (parse_uint32 s)
unfolding parse_uint32 AnyError
parse_uint32-lt s = ground arith

optional_uint32-lt : (s : Bytes) → Ensures (λ n. n < 2 ^ 32) AnyError (optional_uint32 s)
unfolding optional_uint32
optional_uint32-lt [] = ground arith
optional_uint32-lt (c ∷ s) = parse_uint32-lt (c ∷ s)

abbrev IsLocalIfAny : ParserOptions → Option StackFrame → Type 0
IsLocalIfAny o none = Unit
IsLocalIfAny o (some f) = IsLocal o f

-- What the two ends of a line's parser have in common
IsFinish : (Captures → Bytes → Result StackError (Option StackFrame)) → Type 0
IsFinish finish =
    (o : ParserOptions) (matches : Captures) (source_file : Bytes)
    → IsAllowed o source_file
    → Ensures (IsLocalIfAny o) AnyError (finish matches source_file)

frame_of-IsFinish : IsFinish frame_of
unfolding frame_of IsFinish AnyError
frame_of-IsFinish o matches [] h = tt
frame_of-IsFinish o matches (c ∷ source_file) h = ground (
  arith,
  optional_uint32-lt (group_text (codes "frame_number") matches),
  parse_uint32-lt (group_text (codes "line") matches),
  optional_uint32-lt (group_text (codes "column") matches),
)

location_of-IsFinish : IsFinish location_of
unfolding location_of IsFinish AnyError
location_of-IsFinish o matches [] h = tt
location_of-IsFinish o matches (c ∷ source_file) h = ground (
  arith,
  parse_uint32-lt (group_text (codes "line") matches),
  optional_uint32-lt (group_text (codes "column") matches),
)

from_match-IsLocal :
    (finish : Captures → Bytes → Result StackError (Option StackFrame)) (o : ParserOptions)
    (filter : Bool) (m : Option Captures)
    → IsFinish finish
    → Ensures (λ r. IsLocalIfAny o r.0) AnyError (from_match finish o filter m)
unfolding from_match IsFinish
from_match-IsLocal finish o filter none h = tt
from_match-IsLocal finish o filter (some matches) h =
    Ensures-bind Allowed Local AnyError (validate_source_file o filter source_file function)
      (λ r. finish matches r.0 >>= λ f. ok (f, r.1))
      (validate_source_file-IsAllowed o filter source_file function)
      (λ r k.
        Ensures-bind (IsLocalIfAny o) Local AnyError (finish matches r.0) (λ f. ok (f, r.1))
          (h o matches r.0 k) (λ f q. q))
  where
    source_file : Bytes
    source_file = group_text (codes "source_file") matches

    function : Bytes
    function = group_text (codes "function") matches

    Allowed : Bytes × Bool → Type 0
    Allowed r = IsAllowed o r.0

    Local : Option StackFrame × Bool → Type 0
    Local r = IsLocalIfAny o r.0

stack_frame_from_line-IsLocal :
    (o : ParserOptions) (filter : Bool) (line : Bytes)
    → Ensures (λ r. IsLocalIfAny o r.0) AnyError (stack_frame_from_line o filter line)
unfolding stack_frame_from_line
stack_frame_from_line-IsLocal o filter line =
    from_match-IsLocal frame_of o filter (frame_match o line) frame_of-IsFinish

source_location_from_line-IsLocal :
    (o : ParserOptions) (filter : Bool) (line : Bytes)
    → Ensures (λ r. IsLocalIfAny o r.0) AnyError (source_location_from_line o filter line)
unfolding source_location_from_line
source_location_from_line-IsLocal o filter line =
    from_match-IsLocal location_of o filter (find_named_groups_match ub_san_diag_pattern line)
      location_of-IsFinish

begins_new_trace-nil : (o : ParserOptions) (f : StackFrame) → begins_new_trace o [] f ≡ false
unfolding begins_new_trace
begins_new_trace-nil o f = ground arith

-- Induction over the frames of the loop: `P` holds of the frames while it goes on, `Q` when it ends.
module _ (o : ParserOptions) (P Q : List StackFrame → Type 0)
    (stop : (fs : List StackFrame) → P fs → Q fs)
    (last : (fs : List StackFrame) (f : StackFrame)
      → P fs
      → IsLocal o f
      → begins_new_trace o fs f ≡ false
      → Q (fs ++ (f ∷ [])))
    (more : (fs : List StackFrame) (f : StackFrame)
      → P fs
      → IsLocal o f
      → begins_new_trace o fs f ≡ false
      → is_fuzz_test f ≡ false
      → P (fs ++ (f ∷ []))) where
  Good : List StackFrame × Bool → Type 0
  Good r = Q r.0

  next_frame_induction :
      (filter : Bool) (frames : List StackFrame) (f : Option StackFrame)
      (rest : List StackFrame → Result StackError (List StackFrame × Bool))
      → P frames
      → IsLocalIfAny o f
      → ((fs : List StackFrame) → P fs → Ensures Good AnyError (rest fs))
      → Ensures Good AnyError (next_frame o filter frames f rest)
  unfolding next_frame Good
  next_frame_induction filter frames none rest h k r = r frames h
  next_frame_induction filter frames (some f) rest h k r =
      Ensures-if Good AnyError (begins_new_trace o frames f) (ok (frames, filter))
        (if is_fuzz_test f then ok (frames ++ (f ∷ []), filter) else rest (frames ++ (f ∷ [])))
        (λ _. stop frames h)
        (λ e.
          Ensures-if Good AnyError (is_fuzz_test f) (ok (frames ++ (f ∷ []), filter))
            (rest (frames ++ (f ∷ []))) (λ _. last frames f h k e)
            (λ d. r (frames ++ (f ∷ [])) (more frames f h k e d)))

  frames_loop_induction :
      (filter : Bool) (frames : List StackFrame) (logs : List Bytes)
      → P frames
      → Ensures Good AnyError (frames_loop o filter frames logs)
  unfolding frames_loop Good
  frames_loop_induction filter frames [] h = stop frames h
  frames_loop_induction filter frames (line ∷ logs) h =
      Ensures-bind (λ r. IsLocalIfAny o r.0) Good AnyError (stack_frame_from_line o filter line)
        (λ r. next_frame o r.1 frames r.0 (λ fs. frames_loop o r.1 fs logs))
        (stack_frame_from_line-IsLocal o filter line)
        (λ r k.
          next_frame_induction r.1 frames r.0 (λ fs. frames_loop o r.1 fs logs) h k
            (λ fs. frames_loop_induction r.1 fs logs))

  parse_source_location_induction :
      (filter : Bool) (logs : List Bytes)
      → P []
      → Ensures Q AnyError (parse_source_location o filter logs)
  unfolding parse_source_location
  parse_source_location_induction filter [] h = stop [] h
  parse_source_location_induction filter (line ∷ logs) h =
      Ensures-bind (λ r. IsLocalIfAny o r.0) Q AnyError (source_location_from_line o filter line)
        (λ r. or_rest r.0 (parse_source_location o r.1 logs))
        (source_location_from_line-IsLocal o filter line)
        (λ r k.
          found r.0 (parse_source_location o r.1 logs) k
            (parse_source_location_induction r.1 logs h))
    where
      found :
          (f : Option StackFrame) (rest : Result StackError (List StackFrame))
          → IsLocalIfAny o f
          → Ensures Q AnyError rest
          → Ensures Q AnyError (or_rest f rest)
      found none rest k d = d
      found (some f) rest k d = last [] f h k (begins_new_trace-nil o f)

  or_location_induction :
      (logs : List Bytes) (r : List StackFrame × Bool)
      → P []
      → Q r.0
      → Ensures Q AnyError (or_location o logs r)
  unfolding or_location
  or_location_induction logs ([], filter) h k = parse_source_location_induction filter logs h
  or_location_induction logs (f ∷ fs, filter) h k = k

  pub parse_trace_induction : (logs : List Bytes) → P [] → Ensures Q AnyError (parse_trace o logs)
  unfolding parse_trace Good
  parse_trace_induction logs h =
      Ensures-bind (λ r. Q r.0) Q AnyError (frames_loop o true [] logs) (or_location o logs)
        (frames_loop_induction true [] logs h) (λ r. or_location_induction logs r h)
