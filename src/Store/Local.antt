-- ===== src/Store/Local.antt =====
-- finding.go: the list of all local findings.
use cifuzz.Base.{ℕ, Option, none, some, List, [], ◌∷◌, ltb, if◌then◌else◌}
use cifuzz.Base.Result.{Result, ok, err, ◌>>=◌}
use cifuzz.Text.{Bytes, codes}
use cifuzz.Text.FilePath.{join_path}
use cifuzz.Parser.Finding.{Finding, ErrorDetails}
use cifuzz.Store.Files.{Files, Json, Read, missing, failed, content, StoreError, file_failed}
use cifuzz.Store.Save.{load_finding}

-- `CreatedAt`; the zero time is before all others.
abbrev pub time_of : Option ℕ → ℕ
time_of none = 0
time_of (some t) = t

abbrev pub created : Finding → ℕ
created f = time_of f.created_at

-- `sort.SliceStable` by `CreatedAt`, the newest first
unfoldable pub insert_newest : Finding → List Finding → List Finding
insert_newest f [] = f ∷ []
insert_newest f (g ∷ fs) =
    let rest = insert_newest f fs in if ltb (created f) (created g) then g ∷ rest else f ∷ g ∷ fs

unfoldable pub sort_newest : List Finding → List Finding
unfolding insert_newest
sort_newest [] = []
sort_newest (f ∷ fs) = insert_newest f (sort_newest fs)

module _ {S : Type 0} (files : Files S) (json : Json) where
  unfoldable pub load_all :
      Result StoreError (List ErrorDetails)
      → Bytes
      → List Bytes
      → S
      → Result StoreError (List Finding)
  unfolding load_finding
  load_all collection project_dir [] s = ok []
  load_all collection project_dir (name ∷ names) s = do
    f ← load_finding files json collection project_dir name s
    fs ← load_all collection project_dir names s
    ok (f ∷ fs)

  -- `LocalFindings`
  unfoldable pub listed :
      Result StoreError (List ErrorDetails)
      → Bytes
      → S
      → Read (List Bytes)
      → Result StoreError (List Finding)
  unfolding load_all sort_newest
  listed collection project_dir s missing = ok []
  listed collection project_dir s failed = err file_failed
  listed collection project_dir s (content names) =
      load_all collection project_dir names s >>= λ fs. ok (sort_newest fs)

  unfoldable pub local_findings :
      Result StoreError (List ErrorDetails) → Bytes → S → Result StoreError (List Finding)
  unfolding listed join_path
  local_findings collection project_dir s =
      listed collection project_dir s
        (files.read_dir s (join_path project_dir (codes ".cifuzz-findings")))
