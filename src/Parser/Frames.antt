-- ===== src/Parser/Frames.antt =====
-- The frames of a stack trace: `Parse` of pkg/parser/libfuzzer/stacktrace/stacktrace.go.
use cifuzz.Base.{
  ℕ, ◌^◌, Bool, true, false, not, ◌&&◌, ◌||◌, Option, none, some, List, [], ◌∷◌, ◌++◌, ltb, leb,
  if◌then◌else◌,
}
use cifuzz.Base.Result.{Result, ok, err, ◌>>=◌}
use cifuzz.Text.{Bytes, codes, bytes_eq, has_prefix, contains}
use cifuzz.Text.Decimal.{number}
use cifuzz.Text.FilePath.{is_abs, rel}
use cifuzz.Regex.{Captures, find_named_groups_match, group_text}
use cifuzz.Parser.Finding.{StackFrame}
use cifuzz.Parser.StackTrace.{
  ParserOptions, StackError, invalid_number, java_source_file_path, frame_pattern,
  frame_pattern_java, frame_pattern_node, ub_san_diag_pattern,
}

-- The path of `validateSourceFile`, relative to the project if it was absolute; `none` is a file that
-- is not below the project.
unfoldable pub below_project : Option Bytes → Option Bytes
unfolding has_prefix
below_project none = none
below_project (some path) = if has_prefix path (codes "..") then none else some path

unfoldable pub relative_path : ParserOptions → Bytes → Option Bytes
unfolding is_abs rel below_project
relative_path o source_file =
    below_project (if is_abs source_file then rel o.project_dir source_file else some source_file)

-- What the source map makes of a path, with the flag `filterJazzerStackFrames` behind it: a file that
-- is not in the source map is dropped until the first one is.
unfoldable pub jazzer_path : Bool → Bytes → Bytes → Bytes × Bool
unfolding bytes_eq
jazzer_path filter path source_file_path =
    if bytes_eq source_file_path path
    then (if filter then [] else path, filter)
    else (source_file_path, false)

unfoldable pub without_node_modules : Bool → Bytes → Bytes
unfolding contains
without_node_modules js path = if js && contains path (codes "node_modules") then [] else path

unfoldable pub mapped_path :
    ParserOptions → Bool → Bytes → Bytes → Bytes → Result StackError (Bytes × Bool)
unfolding jazzer_path java_source_file_path
mapped_path o filter source_file function path =
    if o.support_jazzer
    then java_source_file_path o source_file function >>= (λ p. ok (jazzer_path filter path p))
    else ok (path, filter)

-- `validateSourceFile`: the path, "" for a file to be ignored, and the flag
unfoldable pub validate_relative :
    ParserOptions → Bool → Bytes → Bytes → Option Bytes → Result StackError (Bytes × Bool)
unfolding mapped_path without_node_modules
validate_relative o filter source_file function none = ok ([], filter)
validate_relative o filter source_file function (some path) =
    mapped_path o filter source_file function path >>= λ r.
    ok (without_node_modules o.support_jazzer_js r.0, r.1)

unfoldable pub validate_source_file :
    ParserOptions → Bool → Bytes → Bytes → Result StackError (Bytes × Bool)
unfolding validate_relative relative_path
validate_source_file o filter source_file function =
    validate_relative o filter source_file function (relative_path o source_file)

abbrev pub small_number : Bytes → Option ℕ → Result StackError ℕ
small_number s none = err (invalid_number s)
small_number s (some n) = if ltb n (2 ^ 32) then ok n else err (invalid_number s)

-- `strconv.ParseUint(s, 10, 32)`
unfoldable pub parse_uint32 : Bytes → Result StackError ℕ
unfolding number
parse_uint32 s = small_number s (number s)

-- A number that may be missing
unfoldable pub optional_uint32 : Bytes → Result StackError ℕ
unfolding parse_uint32
optional_uint32 [] = ok 0
optional_uint32 (c ∷ s) = parse_uint32 (c ∷ s)

-- The end of `stackFrameFromLine`, behind the validation of the source file
unfoldable pub frame_of : Captures → Bytes → Result StackError (Option StackFrame)
unfolding parse_uint32 optional_uint32
frame_of matches [] = ok none
frame_of matches (c ∷ source_file) = do
  frame_number ← optional_uint32 (group_text (codes "frame_number") matches)
  line ← parse_uint32 (group_text (codes "line") matches)
  column ← optional_uint32 (group_text (codes "column") matches)
  ok (
      some (record {
        source_file = c ∷ source_file;
        line = line;
        column = column;
        frame_number = frame_number;
        function = group_text (codes "function") matches;
      }))

-- The end of `sourceLocationFromLine`
unfoldable pub location_of : Captures → Bytes → Result StackError (Option StackFrame)
unfolding parse_uint32 optional_uint32
location_of matches [] = ok none
location_of matches (c ∷ source_file) = do
  line ← parse_uint32 (group_text (codes "line") matches)
  column ← optional_uint32 (group_text (codes "column") matches)
  ok (
      some (record {
        source_file = c ∷ source_file;
        line = line;
        column = column;
        frame_number = 0;
        function = [];
      }))

abbrev pub or_match : Option Captures → Option Captures → Option Captures
or_match (some m) o = some m
or_match none o = o

-- The match of `stackFrameFromLine`: with Jazzer the pattern for Node is not tried.
unfoldable pub frame_match : ParserOptions → Bytes → Option Captures
frame_match o line = or_match (find_named_groups_match frame_pattern line) (
    if o.support_jazzer
    then find_named_groups_match frame_pattern_java line
    else if o.support_jazzer_js
    then find_named_groups_match frame_pattern_node line
    else none)

-- What both kinds of lines have in common: a match, a valid source file, and numbers
unfoldable pub from_match :
    (Captures → Bytes → Result StackError (Option StackFrame))
    → ParserOptions
    → Bool
    → Option Captures
    → Result StackError (Option StackFrame × Bool)
unfolding validate_source_file
from_match finish o filter none = ok (none, filter)
from_match finish o filter (some matches) = do
  r ←
      validate_source_file o filter (group_text (codes "source_file") matches)
        (group_text (codes "function") matches)
  frame ← finish matches r.0
  ok (frame, r.1)

-- `stackFrameFromLine` and `sourceLocationFromLine`, with the flag before and behind
unfoldable pub stack_frame_from_line :
    ParserOptions → Bool → Bytes → Result StackError (Option StackFrame × Bool)
unfolding from_match frame_of frame_match
stack_frame_from_line o filter line = from_match frame_of o filter (frame_match o line)

unfoldable pub source_location_from_line :
    ParserOptions → Bool → Bytes → Result StackError (Option StackFrame × Bool)
unfolding from_match location_of
source_location_from_line o filter line =
    from_match location_of o filter (find_named_groups_match ub_san_diag_pattern line)

-- Whether the frame begins a new trace, behind the frames so far
abbrev pub last_frame : List StackFrame → Option StackFrame
last_frame [] = none
last_frame (f ∷ []) = some f
last_frame (f ∷ (h ∷ fs)) = last_frame (h ∷ fs)

abbrev pub not_behind : Option StackFrame → StackFrame → Bool
not_behind none f = false
not_behind (some last) f = leb f.frame_number last.frame_number

unfoldable pub begins_new_trace : ParserOptions → List StackFrame → StackFrame → Bool
begins_new_trace o frames f =
    not o.support_jazzer && not o.support_jazzer_js && not_behind (last_frame frames) f

-- The function of the fuzz test
unfoldable pub is_fuzz_test : StackFrame → Bool
unfolding bytes_eq
is_fuzz_test f =
    bytes_eq f.function (codes "LLVMFuzzerTestOneInputNoReturn")
    || bytes_eq f.function (codes "LLVMFuzzerTestOneInput")

-- One round of the loop of `parseStackTrace`, with the rest of it
unfoldable pub next_frame :
    ParserOptions
    → Bool
    → List StackFrame
    → Option StackFrame
    → (List StackFrame → Result StackError (List StackFrame × Bool))
    → Result StackError (List StackFrame × Bool)
unfolding begins_new_trace is_fuzz_test
next_frame o filter frames none rest = rest frames
next_frame o filter frames (some f) rest =
    if begins_new_trace o frames f
    then ok (frames, filter)
    else if is_fuzz_test f
    then ok (frames ++ (f ∷ []), filter)
    else rest (frames ++ (f ∷ []))

-- The loop of `parseStackTrace`
unfoldable pub frames_loop :
    ParserOptions → Bool → List StackFrame → List Bytes → Result StackError (List StackFrame × Bool)
unfolding stack_frame_from_line next_frame
frames_loop o filter frames [] = ok (frames, filter)
frames_loop o filter frames (line ∷ logs) = stack_frame_from_line o filter line >>= λ r.
    next_frame o r.1 frames r.0 (λ fs. frames_loop o r.1 fs logs)

abbrev pub or_rest :
    Option StackFrame → Result StackError (List StackFrame) → Result StackError (List StackFrame)
or_rest (some f) rest = ok (f ∷ [])
or_rest none rest = rest

-- `parseSourceLocation`
unfoldable pub parse_source_location :
    ParserOptions → Bool → List Bytes → Result StackError (List StackFrame)
unfolding source_location_from_line
parse_source_location o filter [] = ok []
parse_source_location o filter (line ∷ logs) =
    source_location_from_line o filter line >>= λ r. or_rest r.0 (parse_source_location o r.1 logs)

-- `Parse`
unfoldable pub or_location :
    ParserOptions → List Bytes → List StackFrame × Bool → Result StackError (List StackFrame)
unfolding parse_source_location
or_location o logs ([], filter) = parse_source_location o filter logs
or_location o logs (f ∷ fs, filter) = ok (f ∷ fs)

unfoldable pub parse_trace : ParserOptions → List Bytes → Result StackError (List StackFrame)
unfolding frames_loop or_location
parse_trace o logs = frames_loop o true [] logs >>= or_location o logs
