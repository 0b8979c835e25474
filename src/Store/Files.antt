-- ===== src/Store/Files.antt =====
-- The file system and the JSON library, as finding.go uses them.
use cifuzz.Base.{◌≡◌, ◌≢◌, Bool, Option, none, some, List, []}
use cifuzz.Base.Result.{Result, ok, err}
use cifuzz.Text.{Bytes}
use cifuzz.Parser.Finding.{Finding}

-- What reading a file or a directory gives
pub data Read (A : Type 0) : Type 0 where
  missing failed : Read A
  content : A → Read A

-- The operations on a state of the file system; `none` is an error. `exists` is `fileutil.Exists`, and
-- `copy` is the package otiai10/copy.
pub record Files (S : Type 0) : Type 0 where
  pub exists : S → Bytes → Option Bool
  pub mkdir_all : S → Bytes → Option S
  pub write_file : S → Bytes → Bytes → Option S
  pub read_file : S → Bytes → Read Bytes
  pub read_dir : S → Bytes → Read (List Bytes)
  pub remove_all : S → Bytes → Option S
  pub copy : S → Bytes → Bytes → Option S

-- A file that has been written reads as what was written, and the other files as before.
pub record KeepsFiles {S : Type 0} (files : Files S) : Type 0 where
  pub read-write_file :
      (s s' : S) (path text : Bytes)
      → files.write_file s path text ≡ some s'
      → files.read_file s' path ≡ content text
  pub read-write_other :
      (s s' : S) (path other text : Bytes)
      → path ≢ other
      → files.write_file s path text ≡ some s'
      → files.read_file s' other ≡ files.read_file s other

-- `json.MarshalIndent` and `json.Unmarshal`
pub record Json : Type 0 where
  pub marshal : Finding → Option Bytes
  pub unmarshal : Bytes → Option Finding

-- A finding that is read back from its text but for the path of its seed, which is not exported. (Text
-- that is no UTF-8 is not read back.)
abbrev pub IsReadBack : Json → Finding → Type 0
IsReadBack json f =
    (text : Bytes)
    → json.marshal f ≡ some text
    → json.unmarshal text ≡ some (record f { seed_path = [] })

pub data StoreError : Type 0 where
  not_exist file_failed json_failed rel_failed details_failed lock_failed getwd_failed : StoreError

abbrev pub or_error : {A : Type 0} → StoreError → Option A → Result StoreError A
or_error e none = err e
or_error e (some a) = ok a
