-- ===== src/Deps/Versions.antt =====
-- version.go: the versions that tools report. The package semver, the running of commands and the build
-- tools of Java are records of functions; so is the matching of the pattern for Java, which repeats a
-- group.
use cifuzz.Base.{Bool, Option, none, some, List, [], ◌∷◌, if◌then◌else◌}
use cifuzz.Base.Result.{Result, ok, err, ◌>>=◌}
use cifuzz.Text.{Bytes, codes, contains}
use cifuzz.Text.FilePath.{base_name}
use cifuzz.Regex.{
  Regex, one_of, group, text, optional, some_of, many, any, digit, ◌⨾◌, Captures,
  find_named_groups_match, group_text,
}

-- `semver.NewVersion`, and whether a version is less than another
pub record Semver (V : Type 0) : Type 0 where
  pub new_version : Bytes → Option V
  pub less : V → V → Bool

-- What is asked of the machine: paths of tools, outputs of commands, and variables
pub record Tools : Type 0 where
  pub look_path : Bytes → Option Bytes
  pub command_output : Bytes → List Bytes → Option Bytes
  pub getenv : Bytes → Bytes
  pub finder : Bytes → Option Bytes
  pub gradle_command : Bytes → Option Bytes
  pub gradle_wrapper : Bytes → Option Bytes
  pub gradle_plugin_version : Bytes → Option Bytes
  pub maven_plugin_version : Bytes → Option Bytes
  pub java_match : Bytes → Option Captures
  pub darwin : Bool

pub data VersionError : Type 0 where
  not_found command_failed no_matching_version invalid_version : VersionError

abbrev pub or_error : {A : Type 0} → VersionError → Option A → Result VersionError A
or_error e none = err e
or_error e (some a) = ok a

abbrev dot_digits : Regex
dot_digits = text "." ⨾ some_of digit

abbrev version_group : Regex → Regex
version_group r = group (codes "version") r

-- `\d+\.\d+(\.\d+)?`
abbrev two_or_three : Regex
two_or_three = version_group (some_of digit ⨾ dot_digits ⨾ optional dot_digits)

-- `\d+(\.\d+\.\d+)?`
abbrev one_or_three : Regex
one_or_three = version_group (some_of digit ⨾ optional (dot_digits ⨾ dot_digits))

-- `\d+(\.\d+){0,2}`
abbrev up_to_three : Regex
up_to_three = version_group (some_of digit ⨾ optional (dot_digits ⨾ optional dot_digits))

-- `\d+\.\d+\.\d+`
abbrev three : Regex
three = version_group (some_of digit ⨾ dot_digits ⨾ dot_digits)

-- `.`
abbrev any_byte : Regex
any_byte = one_of any

abbrev pub bazel_regex : Regex
bazel_regex = text "bazel " ⨾ one_or_three

abbrev pub clang_regex : Regex
clang_regex = text "clang version " ⨾ two_or_three

abbrev pub cmake_regex : Regex
cmake_regex = text "cmake version " ⨾ two_or_three

abbrev pub gen_html_regex : Regex
gen_html_regex = many any ⨾ text "LCOV version " ⨾ two_or_three

abbrev pub gradle_regex : Regex
gradle_regex = text "Gradle " ⨾ up_to_three

abbrev pub junit_regex : Regex
junit_regex = text "junit-jupiter-engine-" ⨾ three ⨾ any_byte ⨾ text "jar"

abbrev pub jazzer_regex : Regex
jazzer_regex = text "jazzer-" ⨾ three ⨾ any_byte ⨾ text "jar"

abbrev pub llvm_regex : Regex
llvm_regex = text "LLVM version " ⨾ two_or_three

abbrev pub maven_regex : Regex
maven_regex = text "Apache Maven " ⨾ up_to_three

abbrev pub node_regex : Regex
node_regex = one_or_three

module _ {V : Type 0} (semver : Semver V) where
  -- `extractVersion`, on the match of its pattern
  abbrev pub version_of : Option Captures → Result VersionError V
  unfolding group_text
  version_of none = err no_matching_version
  version_of (some m) =
      or_error invalid_version (semver.new_version (group_text (codes "version") m))

  unfoldable pub extract_version : Bytes → Regex → Result VersionError V
  unfolding version_of find_named_groups_match
  extract_version output re = version_of (find_named_groups_match re output)

  -- `getVersionFromCommand`
  unfoldable pub get_version_from_command :
      Tools → Bytes → List Bytes → Regex → Result VersionError V
  unfolding extract_version
  get_version_from_command t path args re =
      or_error command_failed (t.command_output path args) >>= λ output. extract_version output re

  -- The versions of a tool in the path, of one the finder knows, and of one that reports a text
  unfoldable pub path_version : Tools → Bytes → List Bytes → Regex → Result VersionError V
  unfolding get_version_from_command
  path_version t name args re =
      or_error not_found (t.look_path name) >>= λ path. get_version_from_command t path args re

  unfoldable pub finder_version : Tools → Bytes → Regex → Result VersionError V
  unfolding get_version_from_command
  finder_version t name re = or_error not_found (t.finder name) >>= λ path.
      get_version_from_command t path (codes "--version" ∷ []) re

  abbrev pub parsed : Option Bytes → Result VersionError V
  parsed o =
      or_error not_found o >>= λ version. or_error invalid_version (semver.new_version version)

  -- `bazelVersion`, `cmakeVersion`, `mavenVersion` and `nodeVersion`
  unfoldable pub bazel_version : Tools → Result VersionError V
  unfolding path_version
  bazel_version t = path_version t (codes "bazel") (codes "--version" ∷ []) bazel_regex

  unfoldable pub cmake_version : Tools → Result VersionError V
  unfolding path_version
  cmake_version t = path_version t (codes "cmake") (codes "--version" ∷ []) cmake_regex

  unfoldable pub maven_version : Tools → Result VersionError V
  unfolding path_version
  maven_version t = path_version t (codes "mvn") (codes "--version" ∷ []) maven_regex

  unfoldable pub node_version : Tools → Result VersionError V
  unfolding path_version
  node_version t = path_version t (codes "node") (codes "--version" ∷ []) node_regex

  -- `gradleVersion` and `gradlePluginVersion`
  unfoldable pub gradle_version : Tools → Bytes → Result VersionError V
  unfolding get_version_from_command
  gradle_version t project_dir = or_error not_found (t.gradle_command project_dir) >>= λ path.
      get_version_from_command t path (codes "-version" ∷ []) gradle_regex

  unfoldable pub gradle_plugin_version : Tools → Bytes → Result VersionError V
  gradle_plugin_version t project_dir = parsed (t.gradle_plugin_version project_dir)

  -- `mavenExtensionVersion` and `visualStudioVersion`
  unfoldable pub maven_extension_version : Tools → Bytes → Result VersionError V
  maven_extension_version t project_dir = parsed (t.maven_plugin_version project_dir)

  unfoldable pub visual_studio_version : Tools → Result VersionError V
  visual_studio_version t =
      or_error invalid_version (semver.new_version (t.getenv (codes "VisualStudioVersion")))

  -- `javaVersion`
  unfoldable pub java_version : Tools → Result VersionError V
  unfolding version_of
  java_version t = do
    java_bin ← or_error not_found (t.finder (codes "java"))
    output ← or_error command_failed (t.command_output java_bin (codes "-version" ∷ []))
    version_of (t.java_match output)

  -- `GetEnvWithPathSubstring` on the environment of the process
  unfoldable pub env_with_path_substring : Tools → Bytes → Bytes → Bytes
  unfolding contains base_name
  env_with_path_substring t key substring =
      if contains (base_name (t.getenv key)) substring then t.getenv key else []

  -- `clangCheck`
  unfoldable pub clang_check : Tools → Bytes → Result VersionError V
  unfolding get_version_from_command
  clang_check t path = get_version_from_command t path (codes "--version" ∷ []) clang_regex

  -- One of the variables of `clangVersion`: its version, or nothing if the tool is in the path
  unfoldable pub from_variable : Tools → Bytes → Bytes → Result VersionError (Option V)
  unfolding clang_check
  from_variable t tool [] = or_error not_found (t.look_path tool) >>= λ path. ok none
  from_variable t tool (c ∷ path) = clang_check t (c ∷ path) >>= λ version. ok (some version)

  -- The smaller one
  unfoldable pub smaller : Option V → Option V → Option V
  smaller none cxx = cxx
  smaller (some cc) none = some cc
  smaller (some cc) (some cxx) = if semver.less cxx cc then some cxx else some cc

  abbrev pub or_in_path : Tools → Option V → Result VersionError V
  unfolding clang_check
  or_in_path t (some version) = ok version
  or_in_path t none = or_error not_found (t.finder (codes "clang")) >>= λ path. clang_check t path

  -- `clangVersion`
  unfoldable pub clang_version : Tools → Result VersionError V
  unfolding from_variable smaller or_in_path env_with_path_substring
  clang_version t = do
    cc ← from_variable t (codes "clang") (env_with_path_substring t (codes "CC") (codes "clang"))
    cxx ←
        from_variable t (codes "clang++")
          (env_with_path_substring t (codes "CXX") (codes "clang++"))
    or_in_path t (smaller cc cxx)
