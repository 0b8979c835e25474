-- ===== src/Deps/Table.antt =====
-- definitions.go and the record of deps.go: what is known of each tool.
use cifuzz.Base.{
  Bool, true, false, not, ◌&&◌, ◌||◌, Option, none, some, List, [], ◌∷◌, if◌then◌else◌,
}
use cifuzz.Base.Result.{Result}
use cifuzz.Text.{Bytes, codes, bytes_eq, contains}
use cifuzz.Text.FilePath.{base_name}
use cifuzz.Deps.Versions.{
  Semver, Tools, VersionError, or_error, invalid_version, gen_html_regex, llvm_regex, bazel_version,
  clang_version, cmake_version, finder_version, gradle_version, gradle_plugin_version, java_version,
  maven_version, maven_extension_version, node_version, visual_studio_version,
}

-- `Dependency`, with the project directory as the argument of its functions
pub record Dependency (V : Type 0) : Type 0 where
  pub key : Bytes
  pub min_version : Bytes
  pub get_version : Bytes → Result VersionError V
  pub installed : Bytes → Bool

abbrev pub is_found : Option Bytes → Bool
is_found none = false
is_found (some path) = true

-- `checkFinder`
unfoldable pub check_finder : Tools → Bytes → Bool
check_finder t tool = is_found (t.finder tool)

-- The tool that a variable names, if it is a clang
unfoldable pub clang_in : Tools → Bytes → Bytes
unfolding bytes_eq contains base_name
clang_in t name =
    if not (bytes_eq (t.getenv name) []) && contains (base_name (t.getenv name)) (codes "clang")
    then t.getenv name
    else []

abbrev pub or_second : Bytes → Bytes → Bytes
or_second [] b = b
or_second (c ∷ a) b = c ∷ a

abbrev pub in_path : Tools → Bytes → Bool
in_path t [] = false
in_path t (c ∷ path) = is_found (t.look_path (c ∷ path))

-- `Installed` of clang
unfoldable pub clang_installed : Tools → Bool
unfolding clang_in check_finder
clang_installed t =
    in_path t (or_second (clang_in t (codes "CC")) (clang_in t (codes "CXX")))
    || check_finder t (codes "clang")

abbrev pub is_text : Option Bytes → Bool
is_text none = false
is_text (some []) = false
is_text (some (c ∷ s)) = true

-- `Installed` of Gradle; an error of the search for a wrapper is no wrapper.
unfoldable pub gradle_installed : Tools → Bytes → Bool
unfolding bytes_eq check_finder
gradle_installed t project_dir =
    (not (bytes_eq project_dir []) && is_text (t.gradle_wrapper project_dir))
    || check_finder t (codes "gradle")

-- `getMinVersionBazel`
unfoldable pub min_version_bazel : Tools → Bytes
min_version_bazel t = if t.darwin then codes "6.0.0" else codes "5.3.2"

module _ {V : Type 0} (semver : Semver V) (t : Tools) where
  -- A tool that the finder knows by its key
  unfoldable pub by_finder : Bytes → Bytes → Result VersionError V → Dependency V
  unfolding check_finder
  by_finder key min_version version = record {
    key = key;
    min_version = min_version;
    get_version = λ project_dir. version;
    installed = λ project_dir. check_finder t key;
  }

  -- A tool without a version
  abbrev no_version : Result VersionError V
  no_version = or_error invalid_version (semver.new_version (codes "0.0.0"))

  -- `deps`
  unfoldable pub deps : List (Dependency V)
  unfolding by_finder min_version_bazel clang_installed gradle_installed bazel_version clang_version
      cmake_version finder_version gradle_version gradle_plugin_version java_version maven_version
      maven_extension_version node_version visual_studio_version check_finder
  deps =
      by_finder (codes "bazel") (min_version_bazel t) (bazel_version semver t)
      ∷ record {
        key = codes "clang";
        min_version = codes "11.0.0";
        get_version = λ project_dir. clang_version semver t;
        installed = λ project_dir. clang_installed t;
      }
      ∷ by_finder (codes "cmake") (codes "3.16.0") (cmake_version semver t)
      ∷ by_finder (codes "genhtml") (codes "0.0.0")
          (finder_version semver t (codes "genhtml") gen_html_regex)
      ∷ record {
        key = codes "gradle";
        min_version = codes "6.1.1";
        get_version = gradle_version semver t;
        installed = gradle_installed t;
      }
      ∷ record {
        key = codes "CI Fuzz Gradle plugin";
        min_version = codes "1.13.0";
        get_version = gradle_plugin_version semver t;
        installed = λ project_dir. is_text (t.gradle_plugin_version project_dir);
      }
      ∷ record {
        key = codes "java";
        min_version = codes "1.8.0";
        get_version = λ project_dir. java_version semver t;
        installed = λ project_dir. check_finder t (codes "java home");
      }
      ∷ by_finder (codes "llvm-cov") (codes "12.0.0")
          (finder_version semver t (codes "llvm-cov") llvm_regex)
      ∷ by_finder (codes "llvm-profdata") (codes "0.0.0") no_version
      ∷ by_finder (codes "llvm-symbolizer") (codes "11.0.0")
          (finder_version semver t (codes "llvm-symbolizer") llvm_regex)
      ∷ by_finder (codes "mvn") (codes "3.3.1") (maven_version semver t)
      ∷ record {
        key = codes "CI Fuzz Maven extension";
        min_version = codes "1.3.0";
        get_version = maven_extension_version semver t;
        installed = λ project_dir. is_text (t.maven_plugin_version project_dir);
      }
      ∷ by_finder (codes "node") (codes "16.0") (node_version semver t)
      ∷ by_finder (codes "perl") (codes "0.0.0") no_version
      ∷ by_finder (codes "Visual Studio") (codes "17.0") (visual_studio_version semver t)
      ∷ []

-- An entry of the map; none is a missing key.
unfoldable pub find : {V : Type 0} → Bytes → List (Dependency V) → Option (Dependency V)
unfolding bytes_eq
find key [] = none
find key (d ∷ ds) = if bytes_eq d.key key then some d else find key ds
