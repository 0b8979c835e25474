-- ===== src/Tests/NamesTests.antt =====
-- The names of findings and the detection of CI services at concrete inputs.
use cifuzz.Base.{ℕ, ◌+◌, ltb, ◌≡◌, refl, true, some, [], ◌∷◌, arith, if◌then◌else◌}
use cifuzz.Base.Int.{ℤ, pos, negsuc}
use cifuzz.Text.{Bytes, codes, bytes_eq}
use cifuzz.Names.{Random, IsBounded, get_deterministic_name}
use cifuzz.Names.Words.{IsName, get_deterministic_name-IsName}
use cifuzz.Ci.{ci_name, is_ci_environment}
use cifuzz.Ci.Detection.{Extends, is_ci_environment-Extends}

-- A hash of zeros but for its eighth byte, and a source that counts up
abbrev seed_of : ℤ → ℕ
seed_of (pos n) = n
seed_of (negsuc n) = n

abbrev random : Random ℕ
random = record {
  sum256 = λ s.
      0 ∷ 0 ∷ 0 ∷ 0 ∷ 0 ∷ 0 ∷ 0 ∷ 7 ∷ 0 ∷ 0 ∷ 0 ∷ 0 ∷ 0 ∷ 0 ∷ 0 ∷ 0 ∷ 0 ∷ 0 ∷ 0 ∷ 0 ∷ 0 ∷ 0 ∷ 0 ∷ 0
      ∷ 0 ∷ 0 ∷ 0 ∷ 0 ∷ 0 ∷ 0 ∷ 0 ∷ 0 ∷ [];
  new_source = seed_of;
  intn = λ r n. (if ltb r n then r else 0, r + 1);
}

random-IsBounded : IsBounded random
random-IsBounded r n h = ground arith

name_seven : get_deterministic_name random (codes "seed") ≡ some (codes "angry_anteater")
unfolding get_deterministic_name
name_seven = refl

get_deterministic_name_example :
    (name : Bytes) × (get_deterministic_name random (codes "seed") ≡ some name) × IsName name
get_deterministic_name_example =
    get_deterministic_name-IsName random (codes "seed") random-IsBounded refl

-- An environment with one variable, and with one more
unfoldable one : Bytes → Bytes
unfolding bytes_eq
one name = if bytes_eq name (codes "TRAVIS") then codes "true" else []

unfoldable two : Bytes → Bytes
unfolding bytes_eq
two name =
    if bytes_eq name (codes "TRAVIS")
    then codes "true"
    else if bytes_eq name (codes "DRONE")
    then codes "1"
    else []

one_name : ci_name one ≡ codes "travis-ci"
unfolding ci_name one
one_name = refl

two_name : ci_name two ≡ codes "drone"
unfolding ci_name two
two_name = refl

two-Extends : Extends one two
unfolding one two
two-Extends name h = ground arith

is_ci_environment_example : is_ci_environment two ≡ true
unfolding is_ci_environment one
is_ci_environment_example = is_ci_environment-Extends one two two-Extends refl
