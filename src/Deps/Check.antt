-- ===== src/Deps/Check.antt =====
-- deps.go: the check of the dependencies of a project.
use cifuzz.Base.{not, Option, none, some, List, [], ◌∷◌, if◌then◌else◌}
use cifuzz.Base.Result.{Result, ok, err, ◌>>=◌}
use cifuzz.Text.{Bytes}
use cifuzz.Deps.Versions.{Semver, VersionError}
use cifuzz.Deps.Table.{Dependency, find}

-- The errors of `check`; an undefined dependency and an invalid minimal version are panics.
pub data CheckError : Type 0 where
  undefined missing invalid_min_version : Bytes → CheckError
  too_old : Bytes → CheckError

abbrev pub Checked : Type 0
Checked = Result CheckError (Unit {0})

module _ {V : Type 0} (semver : Semver V) where
  -- A version that cannot be found out does not count.
  unfoldable pub check_version : Dependency V → Option V → Result VersionError V → Checked
  check_version d none current = err (invalid_min_version d.key)
  check_version d (some min) (err e) = ok tt
  check_version d (some min) (ok current) =
      if semver.less current min then err (too_old d.key) else ok tt

  -- One round of the loop of `check`
  unfoldable pub check_key : Bytes → Bytes → Option (Dependency V) → Checked
  unfolding check_version
  check_key project_dir key none = err (undefined key)
  check_key project_dir key (some d) =
      if not (d.installed project_dir)
      then err (missing d.key)
      else check_version d (semver.new_version d.min_version) (d.get_version project_dir)

  -- `check`
  unfoldable pub check : List (Dependency V) → Bytes → List Bytes → Checked
  unfolding check_key find
  check ds project_dir [] = ok tt
  check ds project_dir (key ∷ keys) =
      check_key project_dir key (find key ds) >>= λ _. check ds project_dir keys
