-- ===== src/Tests/RunnerTests.antt =====
-- pkg/runner/runnerutils.go on concrete environments.
use cifuzz.Base.{◌≡◌, refl, true, false, some, List, [], ◌∷◌, All, arith}
use cifuzz.Text.{Bytes, codes, bytes_eq, bytes_eq_iff, has_byte, has_prefix, cut, split, join}
use cifuzz.Text.Split.{Free}
use cifuzz.Env.{Entries, lookup, getenv}
use cifuzz.Env.Update.{IsUnique, occurrences}
use cifuzz.Env.Copy.{VisitsOnce}
use cifuzz.Runner.{set_sanitizer_options, add_env_flags}
use cifuzz.Runner.Separators.{IsOption}
use cifuzz.Runner.SanitizerOptions.{option_value, option_value-set_sanitizer_options}
use cifuzz.Runner.CommonOptions.{IsIteration, SetsAsanOptions, set_common_asan_options_lem}
use cifuzz.Runner.Flags.{IsFlag, SetsFlags, add_env_flags-SetsFlags}

abbrev user_options : Bytes
user_options = codes "exitcode=1:quarantine=2"

user_options-IsUnique : IsUnique (split b':' user_options)
unfolding occurrences cut split
user_options-IsUnique key =
    ground (arith, bytes_eq_iff (codes "exitcode") key, bytes_eq_iff (codes "quarantine") key)

abbrev default_map : Entries
default_map = (codes "color", codes "never") ∷ []

abbrev override_map : Entries
override_map = (codes "exitcode", codes "78") ∷ []

visits_default : VisitsOnce default_map default_map
unfolding lookup
visits_default = record { unique = (refl, tt); same = λ k. refl }

visits_override : VisitsOnce override_map override_map
unfolding lookup
visits_override = record { unique = (refl, tt); same = λ k. refl }

default_texts : All IsOption default_map
unfolding has_byte
default_texts = ((refl, refl, refl), tt)

override_texts : All IsOption override_map
unfolding has_byte
override_texts = ((refl, refl, refl), tt)

option_value-set_sanitizer_options_example :
    option_value
      (codes "exitcode")
      (set_sanitizer_options (λ m. m) user_options default_map override_map)
    ≡ some (codes "78")
unfolding lookup bytes_eq
option_value-set_sanitizer_options_example =
    option_value-set_sanitizer_options (λ m. m) user_options default_map override_map visits_default
      visits_override default_texts override_texts user_options-IsUnique (codes "exitcode")

options-text :
    set_sanitizer_options (λ m. m) user_options default_map override_map
    ≡ codes "exitcode=78:quarantine=2:color=never"
unfolding set_sanitizer_options has_prefix split join
options-text = refl

-- An option that occurs twice keeps its last value.
options_twice :
    set_sanitizer_options (λ m. m) (codes "exitcode=1:exitcode=2") default_map override_map
    ≡ codes "exitcode=78:exitcode=2:color=never"
unfolding set_sanitizer_options has_prefix split join
options_twice = refl

abbrev asan_env : List Bytes
asan_env = codes "ASAN_OPTIONS=exitcode=1:quarantine=2" ∷ []

asan_env-IsUnique : IsUnique asan_env
unfolding occurrences cut
asan_env-IsUnique key = ground arith

asan_options-IsUnique : IsUnique (split b':' (getenv asan_env (codes "ASAN_OPTIONS")))
unfolding getenv cut split occurrences bytes_eq
asan_options-IsUnique = user_options-IsUnique

asan_options-Free : Free 0 (getenv asan_env (codes "ASAN_OPTIONS"))
unfolding getenv cut has_byte bytes_eq
asan_options-Free = refl

identity-IsIteration : IsIteration (λ m. m)
identity-IsIteration m unique = record { unique = unique; same = λ k. refl }

set_common_asan_options_example : SetsAsanOptions (λ m. m) true false asan_env
set_common_asan_options_example =
    set_common_asan_options_lem (λ m. m) true false asan_env identity-IsIteration asan_env-IsUnique
      asan_options-IsUnique asan_options-Free

abbrev flags : List Bytes
flags = codes "CC=clang" ∷ codes "CC=gcc" ∷ []

flags-IsFlag : All IsFlag flags
unfolding has_byte
flags-IsFlag = ((refl, refl), ((refl, refl), tt))

add_env_flags-SetsFlags_example : SetsFlags asan_env flags (add_env_flags asan_env flags)
add_env_flags-SetsFlags_example =
    add_env_flags-SetsFlags flags asan_env asan_env-IsUnique flags-IsFlag
