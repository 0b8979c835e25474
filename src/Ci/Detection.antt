-- ===== src/Ci/Detection.antt =====
-- When a continuous integration service is detected.
use cifuzz.Base.{◌≡◌, ◌≢◌, refl, Bool, true, false, not, ◌&&◌, List, [], ◌∷◌, arith}
use cifuzz.Text.{Bytes, bytes_eq, bytes_eq_iff}
use cifuzz.Ci.{
  Condition, set, one_set, equals, is_set, holds, first_name, ci_tests, ci_name, is_ci_environment,
}

-- Every variable of the first environment has the same value in the second.
abbrev pub Extends : (Bytes → Bytes) → (Bytes → Bytes) → Type 0
Extends getenv more = (name : Bytes) → getenv name ≢ [] → more name ≡ getenv name

-- No condition compares with "", and no name is "".
abbrev has_value : Condition → Bool
unfolding bytes_eq
has_value (equals v value) = not (bytes_eq value [])
has_value (set v) = true
has_value (one_set v w) = true

abbrev are_named : List (Condition × Bytes) → Bool
unfolding bytes_eq
are_named [] = true
are_named ((c, name) ∷ chain) = has_value c && not (bytes_eq name []) && are_named chain

is_set_iff : (getenv : Bytes → Bytes) (v : Bytes) → is_set getenv v ≡ true → getenv v ≢ []
unfolding is_set
is_set_iff getenv v e h = ground (arith, bytes_eq_iff (getenv v) [])

is_set-Extends :
    (getenv more : Bytes → Bytes) (v : Bytes)
    → Extends getenv more
    → is_set getenv v ≡ true
    → is_set more v ≡ true
unfolding is_set
is_set-Extends getenv more v h e = ground (arith, h v (is_set_iff getenv v e))

equals-Extends :
    (getenv more : Bytes → Bytes) (v value : Bytes)
    → Extends getenv more
    → bytes_eq value [] ≡ false
    → bytes_eq (getenv v) value ≡ true
    → bytes_eq (more v) value ≡ true
equals-Extends getenv more v value h k e =
    ground (arith, h v (λ n. ground (arith, bytes_eq_iff (getenv v) value, bytes_eq_iff value [])))

holds-Extends :
    (getenv more : Bytes → Bytes) (c : Condition)
    → Extends getenv more
    → has_value c ≡ true
    → holds getenv c ≡ true
    → holds more c ≡ true
unfolding holds
holds-Extends getenv more (set v) h k e = is_set-Extends getenv more v h e
holds-Extends getenv more (one_set v w) h k e =
    ground (arith, is_set-Extends getenv more v h, is_set-Extends getenv more w h)
holds-Extends getenv more (equals v value) h k e =
    equals-Extends getenv more v value h (ground arith) e

first_name-Extends :
    (getenv more : Bytes → Bytes) (chain : List (Condition × Bytes))
    → Extends getenv more
    → are_named chain ≡ true
    → bytes_eq (first_name getenv chain) [] ≡ false
    → bytes_eq (first_name more chain) [] ≡ false
unfolding first_name
first_name-Extends getenv more [] h k e = e
first_name-Extends getenv more ((c, name) ∷ chain) h k e =
    ground (arith, first_name-Extends getenv more chain h, holds-Extends getenv more c h)

ci_tests-are_named : are_named ci_tests ≡ true
unfolding bytes_eq
ci_tests-are_named = refl

not-false : (b : Bool) → b ≡ false → not b ≡ true
not-false b e = ground arith

not-true : (b : Bool) → not b ≡ true → b ≡ false
not-true b e = ground arith

-- An environment that is taken for that of a CI service still is when further variables are set.
pub is_ci_environment-Extends :
    (getenv more : Bytes → Bytes)
    → Extends getenv more
    → is_ci_environment getenv ≡ true
    → is_ci_environment more ≡ true
unfolding is_ci_environment ci_name
is_ci_environment-Extends getenv more h e =
    not-false _ (first_name-Extends getenv more ci_tests h ci_tests-are_named (not-true _ e))
