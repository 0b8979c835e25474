-- ===== src/Ci.antt =====
-- pkg/cicheck/cicheck.go: which continuous integration service the tool runs on, by its variables.
pub mod Detection
use cifuzz.Base.{Bool, true, false, not, ◌||◌, List, [], ◌∷◌, ◌++◌, if◌then◌else◌}
use cifuzz.Text.{Bytes, codes, bytes_eq}

-- The conditions: a variable that is not empty, one of two that is not, or one with a value
pub data Condition : Type 0 where
  set : Bytes → Condition
  one_set : Bytes → Bytes → Condition
  equals : Bytes → Bytes → Condition

unfoldable pub is_set : (Bytes → Bytes) → Bytes → Bool
unfolding bytes_eq
is_set getenv name = not (bytes_eq (getenv name) [])

unfoldable pub holds : (Bytes → Bytes) → Condition → Bool
unfolding is_set bytes_eq
holds getenv (set name) = is_set getenv name
holds getenv (one_set name other) = is_set getenv name || is_set getenv other
holds getenv (equals name value) = bytes_eq (getenv name) value

-- A chain of `if` statements that return, and "" behind it
unfoldable pub first_name : (Bytes → Bytes) → List (Condition × Bytes) → Bytes
unfolding holds
first_name getenv [] = []
first_name getenv ((condition, name) ∷ chain) =
    if holds getenv condition then name else first_name getenv chain

-- The tests of `CIName`: first those of npm's list, in its order, then the others
abbrev pub npm_tests : List (Condition × Bytes)
npm_tests =
    (set (codes "GERRIT_PROJECT"), codes "gerrit")
    ∷ (set (codes "SYSTEM_TEAMFOUNDATIONCOLLECTIONURI"), codes "azure-pipelines")
    ∷ (set (codes "BITRISE_IO"), codes "bitrise")
    ∷ (set (codes "BUDDY_WORKSPACE_ID"), codes "buddy")
    ∷ (set (codes "BUILDKITE"), codes "buildkite")
    ∷ (set (codes "CIRRUS_CI"), codes "cirrus")
    ∷ (set (codes "GITLAB_CI"), codes "gitlab")
    ∷ (set (codes "APPVEYOR"), codes "appveyor")
    ∷ (set (codes "CIRCLECI"), codes "circle-ci")
    ∷ (set (codes "SEMAPHORE"), codes "semaphore")
    ∷ (set (codes "DRONE"), codes "drone")
    ∷ (set (codes "DSARI"), codes "dsari")
    ∷ (set (codes "GITHUB_ACTIONS"), codes "github-actions")
    ∷ (set (codes "TDDIUM"), codes "tddium")
    ∷ (set (codes "SCREWDRIVER"), codes "screwdriver")
    ∷ (set (codes "STRIDER"), codes "strider")
    ∷ (set (codes "TASKCLUSTER_ROOT_URL"), codes "taskcluster")
    ∷ (set (codes "JENKINS_URL"), codes "jenkins")
    ∷ (one_set (codes "bamboo_planKey") (codes "bamboo.buildKey"), codes "bamboo")
    ∷ (set (codes "GO_PIPELINE_NAME"), codes "gocd")
    ∷ (set (codes "HUDSON_URL"), codes "hudson")
    ∷ (set (codes "WERCKER"), codes "wercker")
    ∷ (set (codes "NETLIFY"), codes "netlify")
    ∷ (set (codes "NOW_GITHUB_DEPLOYMENT"), codes "now-github")
    ∷ (set (codes "GITLAB_DEPLOYMENT"), codes "now-gitlab")
    ∷ (set (codes "BITBUCKET_DEPLOYMENT"), codes "now-bitbucket")
    ∷ (set (codes "BITBUCKET_BUILD_NUMBER"), codes "bitbucket-pipelines")
    ∷ (set (codes "NOW_BUILDER"), codes "now")
    ∷ (set (codes "VERCEL_GITHUB_DEPLOYMENT"), codes "vercel-github")
    ∷ (set (codes "VERCEL_GITLAB_DEPLOYMENT"), codes "vercel-gitlab")
    ∷ (set (codes "VERCEL_BITBUCKET_DEPLOYMENT"), codes "vercel-bitbucket")
    ∷ (set (codes "VERCEL_URL"), codes "vercel")
    ∷ (set (codes "MAGNUM"), codes "magnum")
    ∷ (set (codes "NEVERCODE"), codes "nevercode")
    ∷ (set (codes "RENDER"), codes "render")
    ∷ (set (codes "SAIL_CI"), codes "sail")
    ∷ (set (codes "SHIPPABLE"), codes "shippable")
    ∷ []

abbrev pub more_tests : List (Condition × Bytes)
more_tests =
    (set (codes "TEAMCITY_VERSION"), codes "teamcity")
    ∷ (equals (codes "CI_NAME") (codes "sourcehut"), codes "sourcehut")
    ∷ (equals (codes "CI_NAME") (codes "codeship"), codes "codeship")
    ∷ (set (codes "CODEBUILD_SRC_DIR"), codes "aws-codebuild")
    ∷ (equals (codes "CI") (codes "woodpecker"), codes "woodpecker")
    ∷ (set (codes "APPCENTER_BUILD_ID"), codes "vs-app-center")
    ∷ (set (codes "CI_XCODE_PROJECT"), codes "xcode-cloud")
    ∷ (set (codes "XCS"), codes "xcode-server")
    ∷ (set (codes "RELEASE_BUILD_ID"), codes "releasehub")
    ∷ (set (codes "HARNESS_BUILD_ID"), codes "harness")
    ∷ (set (codes "EAS_BUILD"), codes "expo")
    ∷ (set (codes "CM_BUILD_ID"), codes "codemagic")
    ∷ (set (codes "CF_BUILD_ID"), codes "codefresh")
    ∷ (set (codes "TRAVIS"), codes "travis-ci")
    ∷ (set (codes "BUILDER_OUTPUT"), codes "google-cloud-build")
    ∷ (set (codes "CI"), codes "custom")
    ∷ []

abbrev pub ci_tests : List (Condition × Bytes)
ci_tests = npm_tests ++ more_tests

-- `CIName`
unfoldable pub ci_name : (Bytes → Bytes) → Bytes
unfolding first_name
ci_name getenv = first_name getenv ci_tests

-- `IsCIEnvironment`
unfoldable pub is_ci_environment : (Bytes → Bytes) → Bool
unfolding ci_name bytes_eq
is_ci_environment getenv = not (bytes_eq (ci_name getenv) [])
