-- ===== src/Parser/StackTrace.antt =====
-- The parser of pkg/parser/libfuzzer/stacktrace/stacktrace.go.
use cifuzz.Base.{
  ℕ, zero, suc, Bool, not, ◌&&◌, ◌||◌, Option, none, some, List, [], ◌∷◌, ◌==◌, leb, if◌then◌else◌,
  length,
}
use Prim.Native.String.{String}
use cifuzz.Base.Result.{Result, ok, err}
use cifuzz.Text.{Bytes, codes, bytes_eq}
use cifuzz.Text.FilePath.{base_name}
use cifuzz.Regex.{
  Regex, one_of, many, group, text_start, text_end, text, some_of, some_of_lazy, optional, ◌⨾◌,
  digit, space, non_space, any,
}

abbrev g : String → Regex → Regex
g name r = group (codes name) r

abbrev hex_digit : ℕ → Bool
hex_digit c = digit c || (leb b'a' c && leb c b'f') || (leb b'A' c && leb c b'F')

abbrev pub frame_pattern : Regex
frame_pattern =
    text "#"
    ⨾ g "frame_number" (some_of digit)
    ⨾ some_of space
    ⨾ text "0x"
    ⨾ some_of hex_digit
    ⨾ some_of space
    ⨾ text "in"
    ⨾ some_of space
    ⨾ g "function"
        (optional (text "(anonymous namespace)") ⨾ some_of (λ c. not (c == b'(') && non_space c))
    ⨾ many any
    ⨾ one_of space
    ⨾ g "source_file" (some_of_lazy non_space)
    ⨾ text ":"
    ⨾ g "line" (some_of digit)
    ⨾ optional (text ":")
    ⨾ g "column" (many digit)

abbrev pub frame_pattern_java : Regex
frame_pattern_java =
    text_start
    ⨾ many space
    ⨾ text "at"
    ⨾ some_of space
    ⨾ g "function" (many (λ c. not (c == b'(')))
    ⨾ text "("
    ⨾ g "source_file" (many (λ c. not (c == b':')))
    ⨾ text ":"
    ⨾ g "line" (many digit)
    ⨾ text ")"
    ⨾ many space
    ⨾ text_end

abbrev pub frame_pattern_node : Regex
frame_pattern_node =
    many space
    ⨾ text "at"
    ⨾ one_of space
    ⨾ optional (
        g "function" (some_of non_space)
        ⨾ some_of space
        ⨾ optional (text "[" ⨾ many any ⨾ text "]")
        ⨾ many space
        ⨾ text "(")
    ⨾ g "source_file" (some_of_lazy non_space)
    ⨾ text ":"
    ⨾ g "line" (some_of digit)
    ⨾ optional (text ":")
    ⨾ g "column" (many digit)
    ⨾ optional (text ")")

abbrev pub ub_san_diag_pattern : Regex
ub_san_diag_pattern =
    text_start
    ⨾ g "source_file" (some_of_lazy non_space)
    ⨾ text ":"
    ⨾ optional (g "line" (some_of digit) ⨾ text ":")
    ⨾ optional (g "column" (some_of digit) ⨾ text ":")
    ⨾ text " runtime error: "
    ⨾ g "message" (many any)
    ⨾ text_end

-- `ParserOptions`; the source map is a pointer that may be nil, its map an association list.
pub record ParserOptions : Type 0 where
  pub project_dir : Bytes
  pub java_packages : Option (List (Bytes × List Bytes))
  pub support_jazzer : Bool
  pub support_jazzer_js : Bool

-- The errors; the program has no `endless_search`, which stands for a search that does not end.
pub data StackError : Type 0 where
  invalid_number : Bytes → StackError
  nil_source_map endless_search : StackError

abbrev pub dot_behind : ℕ → Option Bytes → Option Bytes
dot_behind c (some before) = some (c ∷ before)
dot_behind c none = if c == b'.' then some [] else none

-- What stands before the last dot
abbrev pub last_dot : Bytes → Option Bytes
last_dot [] = none
last_dot (c ∷ s) = dot_behind c (last_dot s)

abbrev pub or_empty : Option Bytes → Bytes
or_empty none = []
or_empty (some s) = s

-- `removeLastPart`
unfoldable pub remove_last_part : Bytes → Bytes
remove_last_part package_name = or_empty (last_dot package_name)

-- `m[key]` on a Go map; a missing key gives no files.
unfoldable pub files_of : List (Bytes × List Bytes) → Bytes → List Bytes
unfolding bytes_eq
files_of [] name = []
files_of ((key, files) ∷ m) name = if bytes_eq key name then files else files_of m name

-- The inner loop of `getJavaSourceFilePath`
unfoldable pub file_with_base : Bytes → List Bytes → Option Bytes
unfolding base_name bytes_eq
file_with_base source_file [] = none
file_with_base source_file (rel_file ∷ files) =
    if bytes_eq (base_name rel_file) source_file
    then some rel_file
    else file_with_base source_file files

abbrev pub or_shorter : Option Bytes → Option Bytes → Option Bytes
or_shorter (some rel_file) rest = some rel_file
or_shorter none rest = rest

-- The outer loop of `getJavaSourceFilePath`; `none` means that the fuel ran out.
unfoldable pub source_file_in : ℕ → List (Bytes × List Bytes) → Bytes → Bytes → Option Bytes
unfolding files_of file_with_base remove_last_part
source_file_in fuel m source_file [] = some source_file
source_file_in zero m source_file (c ∷ name) = none
source_file_in (suc fuel) m source_file (c ∷ name) =
    or_shorter (file_with_base source_file (files_of m (c ∷ name)))
      (source_file_in fuel m source_file (remove_last_part (c ∷ name)))

abbrev pub in_time : Option Bytes → Result StackError Bytes
in_time none = err endless_search
in_time (some file) = ok file

-- A package name gets shorter each round, so its length is enough fuel.
unfoldable pub lookup_package :
    Option (List (Bytes × List Bytes)) → Bytes → Bytes → Result StackError Bytes
unfolding source_file_in
lookup_package m source_file [] = ok source_file
lookup_package none source_file (c ∷ name) = err nil_source_map
lookup_package (some m) source_file (c ∷ name) =
    in_time (source_file_in (length (c ∷ name)) m source_file (c ∷ name))

-- `getJavaSourceFilePath`; with a package name the source map is dereferenced.
unfoldable pub java_source_file_path : ParserOptions → Bytes → Bytes → Result StackError Bytes
unfolding lookup_package remove_last_part
java_source_file_path o source_file function =
    lookup_package o.java_packages source_file (remove_last_part (remove_last_part function))
