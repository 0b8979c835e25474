-- ===== src/Parser/Finding.antt =====
-- pkg/finding/finding.go: the record of a finding; the stack frames of pkg/parser/libfuzzer/stacktrace.
use cifuzz.Base.{ℕ, Option, none, some, List, [], ◌∷◌, ◌++◌}
use cifuzz.Text.{Bytes, codes}
use cifuzz.Text.Decimal.{decimal}

pub record StackFrame : Type 0 where
  pub source_file : Bytes
  pub line : ℕ
  pub column : ℕ
  pub frame_number : ℕ
  pub function : Bytes

-- One round of the loop of `EncodeStackTrace`
unfoldable pub encode_frame : StackFrame → Bytes
unfolding decimal
encode_frame sf =
    codes "#"
    ++ (decimal sf.frame_number
        ++ (codes "|"
            ++ (sf.function
                ++ (codes "|"
                    ++ (sf.source_file
                        ++ (codes "|" ++ (decimal sf.line ++ (codes "|" ++ decimal sf.column))))))))

-- `EncodeStackTrace`
unfoldable pub encode_stack_trace : List StackFrame → Bytes
unfolding encode_frame
encode_stack_trace [] = []
encode_stack_trace (sf ∷ stacktrace) = encode_frame sf ++ encode_stack_trace stacktrace

pub data ErrorType : Type 0 where
  unknown_error compilation_error crash warning runtime_error : ErrorType

-- `Severity`; the score is a float32, kept as the text of the number.
pub record Severity : Type 0 where
  pub level : Bytes
  pub score : Bytes

pub record ExternalDetail : Type 0 where
  pub id : ℕ
  pub name : Bytes
  pub description : Bytes

pub record Link : Type 0 where
  pub description : Bytes
  pub url : Bytes

pub record ErrorDetails : Type 0 where
  pub id : Bytes
  pub name : Bytes
  pub description : Bytes
  pub severity : Option Severity
  pub mitigation : Bytes
  pub links : List Link
  pub owasp_details : Option ExternalDetail
  pub cwe_details : Option ExternalDetail

-- The details of which only the id is known
abbrev pub details_of_id : Bytes → ErrorDetails
details_of_id id = record {
  id = id;
  name = [];
  description = [];
  severity = none;
  mitigation = [];
  links = [];
  owasp_details = none;
  cwe_details = none;
}

-- `Finding`, without the fields that no code here sets (`HumanReadableInput` and `Tag`); times are numbers.
pub record Finding : Type 0 where
  pub origin : Bytes
  pub name : Bytes
  pub type : ErrorType
  pub input_data : Bytes
  pub logs : List Bytes
  pub details : Bytes
  pub more_details : Option ErrorDetails
  pub created_at : Option ℕ
  pub input_file : Bytes
  pub stack_trace : List StackFrame
  pub seed_path : Bytes
  pub fuzz_test : Bytes

-- A finding with the fields that a parser sets; the others have their zero values.
abbrev pub new_finding : ErrorType → Bytes → List Bytes → Finding
new_finding type details logs = record {
  origin = [];
  name = [];
  type = type;
  input_data = [];
  logs = logs;
  details = details;
  more_details = none;
  created_at = none;
  input_file = [];
  stack_trace = [];
  seed_path = [];
  fuzz_test = [];
}

-- `GetDetails`, on a pointer that may be nil
abbrev pub get_details : Option Finding → Bytes
get_details none = []
get_details (some f) = f.details
