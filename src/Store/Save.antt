-- ===== src/Store/Save.antt =====
-- finding.go: saving, loading and removing a finding.
use cifuzz.Base.{Bool, not, ◌&&◌, List, [], if◌then◌else◌}
use cifuzz.Base.Result.{Result, ok, err, ◌>>=◌}
use cifuzz.Text.{Bytes, codes, bytes_eq}
use cifuzz.Text.FilePath.{join_path, rel}
use cifuzz.Parser.Finding.{Finding, ErrorDetails}
use cifuzz.Store.Files.{
  Files, Json, Read, missing, failed, content, StoreError, or_error, not_exist, file_failed,
  json_failed, rel_failed,
}
use cifuzz.Store.Details.{enhance_with_error_details}

unfoldable pub finding_dir : Bytes → Bytes → Bytes
unfolding join_path
finding_dir project_dir name = join_path (join_path project_dir (codes ".cifuzz-findings")) name

unfoldable pub json_path : Bytes → Bytes → Bytes
unfolding finding_dir join_path
json_path project_dir name = join_path (finding_dir project_dir name) (codes "finding.json")

unfoldable pub input_path : Bytes → Bytes → Bytes
unfolding finding_dir join_path
input_path project_dir name = join_path (finding_dir project_dir name) (codes "crashing-input")

module _ {S : Type 0} (files : Files S) (json : Json) where
  -- `Exists`
  unfoldable pub exists : Bytes → Finding → S → Result StoreError Bool
  unfolding json_path
  exists project_dir f s = or_error file_failed (files.exists s (json_path project_dir f.name))

  -- The input is written unless there is a file for it already.
  unfoldable pub write_input : Bytes → Finding → S → Result StoreError (Finding × S)
  unfolding input_path rel
  write_input project_dir f s = do
    s' ← or_error file_failed (files.write_file s (input_path project_dir f.name) f.input_data)
    path ← or_error rel_failed (rel project_dir (input_path project_dir f.name))
    ok (record f { input_file = path }, s')

  unfoldable pub save_input : Bytes → Finding → S → Result StoreError (Finding × S)
  unfolding write_input bytes_eq
  save_input project_dir f s = do
    found ← or_error file_failed (files.exists s (input_path project_dir f.name))
    if not found && not (bytes_eq f.input_data []) then write_input project_dir f s else ok (f, s)

  -- `saveJSON`
  unfoldable pub save_json : Bytes → Finding → S → Result StoreError S
  save_json path f s = do
    text ← or_error json_failed (json.marshal f)
    or_error file_failed (files.write_file s path text)

  -- `Save`
  unfoldable pub save : Bytes → Finding → S → Result StoreError (Finding × S)
  unfolding save_input save_json json_path finding_dir
  save project_dir f s = do
    s' ← or_error file_failed (files.mkdir_all s (finding_dir project_dir f.name))
    r ← save_input project_dir f s'
    s'' ← save_json (json_path project_dir f.name) r.0 r.1
    ok (r.0, s'')

  -- `Remove`
  unfoldable pub remove : Bytes → Finding → S → Result StoreError S
  unfolding finding_dir
  remove project_dir f s =
      or_error file_failed (files.remove_all s (finding_dir project_dir f.name))

  -- `LoadFinding`, behind the reading of the file
  unfoldable pub loaded :
      Result StoreError (List ErrorDetails) → Read Bytes → Result StoreError Finding
  unfolding enhance_with_error_details
  loaded collection missing = err not_exist
  loaded collection failed = err file_failed
  loaded collection (content text) = do
    f ← or_error json_failed (json.unmarshal text)
    enhance_with_error_details collection (record f { origin = codes "Local" })

  unfoldable pub load_finding :
      Result StoreError (List ErrorDetails) → Bytes → Bytes → S → Result StoreError Finding
  unfolding loaded json_path
  load_finding collection project_dir name s =
      loaded collection (files.read_file s (json_path project_dir name))
