-- ===== src/Store/Describe.antt =====
-- finding.go: how a finding is described in a line.
use cifuzz.Base.{ℕ, zero, suc, not, List, [], ◌∷◌, ◌++◌, ◌==◌, if◌then◌else◌}
use cifuzz.Text.{Bytes, codes, bytes_eq, contains, split, join}
use cifuzz.Text.Decimal.{decimal}
use cifuzz.Parser.Finding.{
  Finding, StackFrame, ErrorType, crash, runtime_error, unknown_error, compilation_error, warning,
}

-- The location of a frame, with its column if it has one
abbrev pub with_column : ℕ → Bytes
unfolding decimal
with_column zero = []
with_column (suc n) = codes ":" ++ decimal (suc n)

unfoldable pub frame_location : StackFrame → Bytes
unfolding with_column decimal
frame_location f = f.source_file ++ (codes ":" ++ (decimal f.line ++ with_column f.column))

-- `SourceLocation`
abbrev pub location_of : List StackFrame → Bytes
unfolding frame_location
location_of [] = codes "n/a"
location_of (f ∷ fs) = frame_location f

unfoldable pub source_location : Finding → Bytes
unfolding location_of
source_location f = location_of f.stack_trace

-- `strings.Split(s, sep)[0]` for a separator of one byte
abbrev pub first_part : List Bytes → Bytes
first_part [] = []
first_part (part ∷ parts) = part

-- `strings.ReplaceAll(s, "-", " ")`
abbrev pub spaces_for_dashes : Bytes → Bytes
spaces_for_dashes [] = []
spaces_for_dashes (c ∷ s) = (if c == b'-' then b' ' else c) ∷ spaces_for_dashes s

-- The first column of `ShortDescriptionColumns`
unfoldable pub error_type : ErrorType → Bytes → Bytes
unfolding bytes_eq contains split
error_type crash details =
    if bytes_eq details (codes "detected memory leaks")
    then details
    else if contains details (codes "Security Issue:")
    then details
    else if bytes_eq details (codes "fuzz target exited")
    then details
    else spaces_for_dashes (first_part (split b' ' details))
error_type runtime_error details = first_part (split b':' details)
error_type unknown_error details = details
error_type compilation_error details = details
error_type warning details = details

-- The second column, for the first frame
abbrev pub location_column : List StackFrame → List Bytes
unfolding frame_location bytes_eq
location_column [] = []
location_column (f ∷ fs) =
    (if not (bytes_eq f.function [])
      then codes "in " ++ (f.function ++ (codes " (" ++ (frame_location f ++ codes ")")))
      else codes "in " ++ frame_location f)
    ∷ []

-- `ShortDescriptionColumns`
unfoldable pub short_description_columns : Finding → List Bytes
unfolding error_type location_column
short_description_columns f = error_type f.type f.details ∷ location_column f.stack_trace

-- `ShortDescription`
unfoldable pub short_description : Finding → Bytes
unfolding short_description_columns join
short_description f = join (codes " ") (short_description_columns f)

-- `ShortDescriptionWithName`
unfoldable pub short_description_with_name : Finding → Bytes
unfolding short_description
short_description_with_name f = codes "[" ++ (f.name ++ (codes "] " ++ short_description f))
