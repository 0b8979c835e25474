-- ===== src/Tests/DepsTests.antt =====
-- The check of dependencies at concrete inputs.
use cifuzz.Base.{ℕ, ◌≡◌, ◌↔◌, refl, false, some, none, List, [], ◌∷◌, ◌++◌, All, if◌then◌else◌, ltb}
use cifuzz.Base.Result.{ok, err}
use cifuzz.Text.{Bytes, codes, bytes_eq, split}
use cifuzz.Text.Decimal.{number}
use cifuzz.Deps.Versions.{Semver, Tools, clang_version}
use cifuzz.Deps.Table.{deps, find}
use cifuzz.Deps.Check.{check, missing, too_old}
use cifuzz.Deps.Fulfilled.{Fulfils, check_iff}

abbrev first_part : List Bytes → Bytes
first_part [] = []
first_part (part ∷ parts) = part

-- Versions are their first numbers.
unfoldable semver : Semver ℕ
unfolding split number
semver = record { new_version = λ s. number (first_part (split b'.' s)); less = ltb }

unfoldable tools : Tools
unfolding bytes_eq
tools = record {
  look_path = λ tool. some (codes "/bin/" ++ tool);
  command_output = λ path args.
      if bytes_eq path (codes "/bin/cmake")
      then some (codes "cmake version 3.20.1")
      else if bytes_eq path (codes "/bin/clang-14")
      then some (codes "Ubuntu clang version 14.0.0")
      else if bytes_eq path (codes "/bin/clang++-12")
      then some (codes "clang version 12.0.1")
      else if bytes_eq path (codes "/bin/node")
      then some (codes "v14.2.0")
      else none;
  getenv = λ name.
      if bytes_eq name (codes "CC")
      then codes "/bin/clang-14"
      else if bytes_eq name (codes "CXX")
      then codes "/bin/clang++-12"
      else [];
  finder = λ tool. if bytes_eq tool (codes "perl") then none else some (codes "/bin/" ++ tool);
  gradle_command = λ dir. none;
  gradle_wrapper = λ dir. none;
  gradle_plugin_version = λ dir. none;
  maven_plugin_version = λ dir. none;
  java_match = λ output. none;
  darwin = false;
}

smaller_clang : clang_version semver tools ≡ ok 12
unfolding clang_version semver tools
smaller_clang = refl

-- The version of genhtml cannot be found out.
fulfilled :
    check semver
      (deps semver tools)
      (codes "/p")
      (codes "cmake" ∷ codes "clang" ∷ codes "genhtml" ∷ [])
    ≡ ok tt
unfolding check deps semver tools
fulfilled = refl

old_node :
    check semver (deps semver tools) (codes "/p") (codes "cmake" ∷ codes "node" ∷ [])
    ≡ err (too_old (codes "node"))
unfolding check deps semver tools
old_node = refl

no_perl :
    check semver (deps semver tools) (codes "/p") (codes "perl" ∷ codes "node" ∷ [])
    ≡ err (missing (codes "perl"))
unfolding check deps semver tools
no_perl = refl

check_iff_example :
    (check semver (deps semver tools) (codes "/p") (codes "cmake" ∷ codes "node" ∷ []) ≡ ok tt)
    ↔ All
        (λ key. Fulfils semver (codes "/p") (find key (deps semver tools)))
        (codes "cmake" ∷ codes "node" ∷ [])
check_iff_example =
    check_iff semver (deps semver tools) (codes "/p") (codes "cmake" ∷ codes "node" ∷ [])
