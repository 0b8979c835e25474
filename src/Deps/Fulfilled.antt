-- ===== src/Deps/Fulfilled.antt =====
-- What the check of the dependencies means.
use cifuzz.Base.{◌≡◌, ◌↔◌, refl, true, false, Option, none, some, List, [], ◌∷◌, All, arith}
use cifuzz.Base.Result.{Result, ok, err, ◌>>=◌}
use cifuzz.Text.{Bytes}
use cifuzz.Deps.Versions.{Semver, VersionError}
use cifuzz.Deps.Table.{Dependency, find}
use cifuzz.Deps.Check.{Checked, check_version, check_key, check}

module _ {V : Type 0} (semver : Semver V) where
  -- A version that is known is not less than the minimal one.
  abbrev pub IsRecent : Option V → Result VersionError V → Type 0
  IsRecent none current = ⊥
  IsRecent (some min) (err e) = Unit
  IsRecent (some min) (ok current) = semver.less current min ≡ false

  -- A tool is known, installed and recent.
  abbrev pub Fulfils : Bytes → Option (Dependency V) → Type 0
  Fulfils project_dir none = ⊥
  Fulfils project_dir (some d) =
      (d.installed project_dir ≡ true)
      × IsRecent (semver.new_version d.min_version) (d.get_version project_dir)

  check_version_iff :
      (d : Dependency V) (min : Option V) (current : Result VersionError V)
      → (check_version semver d min current ≡ ok tt) ↔ IsRecent min current
  unfolding check_version
  check_version_iff d none current = ground arith
  check_version_iff d (some min) (err e) = ((λ _. tt), (λ _. refl))
  check_version_iff d (some min) (ok current) = ground arith

  check_key_iff :
      (project_dir key : Bytes) (o : Option (Dependency V))
      → (check_key semver project_dir key o ≡ ok tt) ↔ Fulfils project_dir o
  unfolding check_key
  check_key_iff project_dir key none = ground arith
  check_key_iff project_dir key (some d) =
      ground
        (arith, check_version_iff d (semver.new_version d.min_version) (d.get_version project_dir))

  both_ok : (m n : Checked) → ((m >>= (λ _. n)) ≡ ok tt) ↔ ((m ≡ ok tt) × (n ≡ ok tt))
  both_ok (ok u) n = ground arith
  both_ok (err e) n = ground arith

  -- The check succeeds exactly when each key names a tool that is known and installed, and whose version,
  -- if it can be found out, is not less than the minimal one.
  pub check_iff :
      (ds : List (Dependency V)) (project_dir : Bytes) (keys : List Bytes)
      → (check semver ds project_dir keys ≡ ok tt)
        ↔ All (λ key. Fulfils project_dir (find key ds)) keys
  unfolding check
  check_iff ds project_dir [] = ((λ _. tt), (λ _. refl))
  check_iff ds project_dir (key ∷ keys) = ground (
    arith,
    both_ok (check_key semver project_dir key (find key ds)) (check semver ds project_dir keys),
    check_key_iff project_dir key (find key ds),
    check_iff ds project_dir keys,
  )
