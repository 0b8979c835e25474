-- ===== src/Store/Details.antt =====
-- finding.go: the details of errors, which a file of the installation lists.
use cifuzz.Base.{
  ◌+◌, Bool, false, ◌&&◌, ◌||◌, Option, none, some, List, [], ◌∷◌, leb, if◌then◌else◌,
}
use cifuzz.Base.Result.{Result, ok, ◌>>=◌}
use cifuzz.Text.{Bytes, bytes_eq, contains}
use cifuzz.Parser.Finding.{Finding, ErrorDetails, Severity}
use cifuzz.Store.Files.{StoreError}
use cifuzz.Store.Describe.{error_type}

-- `strings.ToLower`, on ASCII text
abbrev pub to_lower : Bytes → Bytes
to_lower [] = []
to_lower (c ∷ s) = (if leb b'A' c && leb c b'Z' then c + 32 else c) ∷ to_lower s

abbrev pub has_id : Option ErrorDetails → Bytes → Bool
unfolding bytes_eq
has_id none id = false
has_id (some d) id = bytes_eq d.id id

-- The condition of the loop of `EnhanceWithErrorDetails`
unfoldable pub describes : ErrorDetails → Finding → Bool
unfolding has_id contains error_type
describes d f =
    has_id f.more_details d.id
    || contains (to_lower (error_type f.type f.details)) (to_lower d.name)

-- The details of the file, but the id that the finding had
abbrev pub keep_id : Option ErrorDetails → ErrorDetails → ErrorDetails
unfolding bytes_eq
keep_id none d = d
keep_id (some old) d = if bytes_eq old.id [] then d else record d { id = old.id }

-- The loop of `EnhanceWithErrorDetails`
unfoldable pub enhance_from : List ErrorDetails → Finding → Finding
unfolding describes keep_id
enhance_from [] f = f
enhance_from (d ∷ collection) f =
    if describes d f
    then record f { more_details = some (keep_id f.more_details d) }
    else enhance_from collection f

-- `EnhanceWithErrorDetails`; the result of `ErrorDetailsCollection` is an argument.
unfoldable pub enhance_with_error_details :
    Result StoreError (List ErrorDetails) → Finding → Result StoreError Finding
unfolding enhance_from
enhance_with_error_details collection f = collection >>= λ details. ok (enhance_from details f)

-- `SeverityForErrorID`
abbrev pub severity_in : List ErrorDetails → Bytes → Option Severity
unfolding bytes_eq
severity_in [] id = none
severity_in (d ∷ collection) id = if bytes_eq d.id id then d.severity else severity_in collection id

unfoldable pub severity_for_error_id :
    Result StoreError (List ErrorDetails) → Bytes → Result StoreError (Option Severity)
unfolding severity_in
severity_for_error_id collection id = collection >>= λ details. ok (severity_in details id)
