-- ===== src/Store/CopyInput.antt =====
-- finding.go: the copies of the input of a finding. The lock is that of the package go-filemutex: whether
-- it can be made, taken and closed.
use cifuzz.Base.{
  ℕ, zero, suc, ◌-◌, Bool, true, false, Option, [], ◌∷◌, ◌++◌, map, length, if◌then◌else◌,
}
use cifuzz.Base.Result.{Result, ok, err, ◌>>=◌}
use cifuzz.Text.{Bytes, codes, has_prefix}
use cifuzz.Text.FilePath.{join_path, rel, base_name}
use cifuzz.Parser.Finding.{Finding}
use cifuzz.Store.Files.{
  Files, StoreError, or_error, file_failed, rel_failed, lock_failed, getwd_failed,
}
use cifuzz.Store.Save.{finding_dir, input_path}

-- `strings.ReplaceAll` for an old text that is not empty; `skip` bytes belong to an occurrence.
unfoldable pub replace_from : Bytes → Bytes → ℕ → Bytes → Bytes
unfolding has_prefix
replace_from old new skip [] = []
replace_from old new (suc skip) (c ∷ s) = replace_from old new skip s
replace_from old new zero (c ∷ s) =
    let here = replace_from old new (length old - 1) s in
    let behind = replace_from old new zero s in
    if has_prefix (c ∷ s) old then new ++ here else c ∷ behind

unfoldable pub replace_all : Bytes → Bytes → Bytes → Bytes
unfolding replace_from
replace_all s old new = replace_from old new zero s

-- The lock, and the working directory
pub record Lock : Type 0 where
  pub made : Bool
  pub locked : Bool
  pub closed : Bool

module _ {S : Type 0} (files : Files S) where
  -- `copyInputFile`
  unfoldable pub copy_input_file :
      Option Bytes → Bytes → Bytes → Finding → S → Result StoreError (Finding × S)
  unfolding input_path join_path base_name rel replace_all
  copy_input_file cwd project_dir seed_corpus_dir f s =
      let path = input_path project_dir f.name in
      let seed_path = join_path seed_corpus_dir (f.name ++ (codes "-" ++ base_name f.input_file)) in
      do
        s ← or_error file_failed (files.copy s f.input_file path)
        s ← or_error file_failed (files.mkdir_all s seed_corpus_dir)
        s ← or_error file_failed (files.copy s f.input_file seed_path)
        dir ← or_error getwd_failed cwd
        rel_path ← or_error rel_failed (rel dir path)
        in_project ← or_error rel_failed (rel project_dir path)
        ok (
          record f {
            seed_path = seed_path;
            logs = map (λ line. replace_all line f.input_file rel_path) f.logs;
            input_file = in_project;
          },
          s,
        )

  -- An error of the copy counts before one of the lock.
  abbrev pub unlock : Bool → Result StoreError (Finding × S) → Result StoreError (Finding × S)
  unlock closed (err e) = err e
  unlock true (ok r) = ok r
  unlock false (ok r) = err lock_failed

  -- `CopyInputFileAndUpdateFinding`
  unfoldable pub copy_input_file_and_update_finding :
      Lock → Option Bytes → Bytes → Bytes → Finding → S → Result StoreError (Finding × S)
  unfolding copy_input_file finding_dir
  copy_input_file_and_update_finding lock cwd project_dir seed_corpus_dir f s = do
    s ← or_error file_failed (files.mkdir_all s (finding_dir project_dir f.name))
    s ← (if lock.made then ok s else err lock_failed)
    s ← (if lock.locked then ok s else err lock_failed)
    unlock lock.closed (copy_input_file cwd project_dir seed_corpus_dir f s)
