-- ===== src/Names.antt =====
-- internal/names/names.go: the names of findings. SHA-256 and the source of random numbers are Go's.
mod Adjectives
mod Nouns
pub mod Words
use Prim.Native.String.{String}
use cifuzz.Base.{ℕ, zero, suc, ◌+◌, ◌*◌, ◌<◌, Option, none, some, List, [], ◌∷◌, ◌++◌, map, length}
use cifuzz.Base.Int.{ℤ, of_word}
use cifuzz.Text.{Bytes, codes}
use Adjectives
use Nouns

-- `sha256.New`, `Write` and `Sum`; `rand.NewSource` and `rand.New`; `Intn`
pub record Random (R : Type 0) : Type 0 where
  pub sum256 : Bytes → Bytes
  pub new_source : ℤ → R
  pub intn : R → ℕ → ℕ × R

-- What the Go documentation says of `Intn`: a number from the half-open interval
abbrev pub IsBounded : {R : Type 0} → Random R → Type 0
IsBounded {R} random = (r : R) (n : ℕ) → 0 < n → (random.intn r n).0 < n

abbrev pub left : List Bytes
left = map codes Adjectives.left

abbrev pub right : List Bytes
right = map codes Nouns.right

-- An index; out of range is a panic.
abbrev pub nth : List Bytes → ℕ → Option Bytes
nth [] i = none
nth (w ∷ ws) zero = some w
nth (w ∷ ws) (suc i) = nth ws i

-- `binary.BigEndian.Uint64`: the first eight bytes; fewer are a panic.
unfoldable pub big_endian_onto : ℕ → ℕ → Bytes → Option ℕ
big_endian_onto zero n s = some n
big_endian_onto (suc k) n [] = none
big_endian_onto (suc k) n (c ∷ s) = big_endian_onto k (n * 256 + c) s

abbrev pub name_of : Option Bytes → Option Bytes → Option Bytes
name_of (some l) (some r) = some (l ++ (b'_' ∷ r))
name_of (some l) none = none
name_of none r = none

-- The two numbers, and the words at them
unfoldable pub draw_name : {R : Type 0} → Random R → R → Option Bytes
draw_name random r =
    let first = random.intn r (length left) in
    let second = random.intn first.1 (length right) in
    name_of (nth left first.0) (nth right second.0)

abbrev pub draw_from : {R : Type 0} → Random R → Option ℕ → Option Bytes
draw_from random none = none
draw_from random (some n) = draw_name random (random.new_source (of_word n))

-- `GetDeterministicName`; `none` is a panic.
unfoldable pub get_deterministic_name : {R : Type 0} → Random R → Bytes → Option Bytes
unfolding big_endian_onto draw_name
get_deterministic_name random seed_value =
    draw_from random (big_endian_onto 8 0 (random.sum256 seed_value))
