-- ===== src/Names/Words.antt =====
-- The words of the names.
use cifuzz.Base.{
  ℕ, zero, suc, ◌<◌, ◌≤◌, ◌≡◌, refl, ap, ◌∙◌, Bool, true, ◌&&◌, Option, some, List, [], ◌∷◌, ◌++◌,
  leb, length, arith,
}
use mathlib.Core.Path.{ap₂}
use cifuzz.Text.{Bytes, has_byte, cut}
use cifuzz.Text.Split.{Free, cut-append}
use cifuzz.Base.Int.{of_word}
use cifuzz.Names.{
  Random, IsBounded, left, right, nth, big_endian_onto, name_of, draw_name, draw_from,
  get_deterministic_name,
}

abbrev pub is_lower : Bytes → Bool
is_lower [] = true
is_lower (c ∷ w) = leb b'a' c && leb c b'z' && is_lower w

abbrev all_lower : List Bytes → Bool
all_lower [] = true
all_lower (w ∷ ws) = is_lower w && all_lower ws

left-is_lower : all_lower left ≡ true
left-is_lower = refl

right-is_lower : all_lower right ≡ true
right-is_lower = refl

is_lower-Free : (w : Bytes) → is_lower w ≡ true → Free b'_' w
unfolding has_byte
is_lower-Free [] h = refl
is_lower-Free (c ∷ w) h = ground (arith, is_lower-Free w)

-- A word of a table
abbrev pub IsWord : List Bytes → Bytes → Type 0
IsWord ws w = (i : ℕ) × (nth ws i ≡ some w)

nth-is_lower :
    (ws : List Bytes) (i : ℕ) (w : Bytes)
    → all_lower ws ≡ true
    → nth ws i ≡ some w
    → is_lower w ≡ true
nth-is_lower [] i w h e = ground arith
nth-is_lower (v ∷ ws) zero w h e = ground arith
nth-is_lower (v ∷ ws) (suc i) w h e = nth-is_lower ws i w (ground arith) e

nth-IsWord : (ws : List Bytes) (i : ℕ) → i < length ws → (w : Bytes) × (nth ws i ≡ some w)
nth-IsWord [] i h = ground arith
nth-IsWord (w ∷ ws) zero h = (w, refl)
nth-IsWord (w ∷ ws) (suc i) h = nth-IsWord ws i (ground arith)

-- An adjective and a noun, in lower case, between which the underscore cuts
abbrev pub IsName : Bytes → Type 0
IsName name =
    (l : Bytes) × (r : Bytes) × IsWord left l
    × IsWord right r
    × (cut b'_' name ≡ some (l, r))
    × (is_lower l ≡ true)
    × (is_lower r ≡ true)

name_of-some :
    (a b : Option Bytes) (l r : Bytes)
    → a ≡ some l
    → b ≡ some r
    → name_of a b ≡ some (l ++ (b'_' ∷ r))
name_of-some a b l r e d = ap₂ name_of e d

name_of-IsName :
    (i j : ℕ)
    → i < length left
    → j < length right
    → (name : Bytes) × (name_of (nth left i) (nth right j) ≡ some name) × IsName name
name_of-IsName i j h k = named (nth-IsWord left i h) (nth-IsWord right j k)
  where
    named :
        (w : Bytes) × (nth left i ≡ some w)
        → (w : Bytes) × (nth right j ≡ some w)
        → (name : Bytes) × (name_of (nth left i) (nth right j) ≡ some name) × IsName name
    named (l, e) (r, d) = (
      l ++ (b'_' ∷ r),
      name_of-some _ _ l r e d,
      (
        l,
        r,
        (i, e),
        (j, d),
        cut-append b'_' l r (is_lower-Free l (nth-is_lower left i l left-is_lower e)),
        nth-is_lower left i l left-is_lower e,
        nth-is_lower right j r right-is_lower d,
      ),
    )

big_endian_onto-some :
    (k n : ℕ) (s : Bytes) → k ≤ length s → (m : ℕ) × (big_endian_onto k n s ≡ some m)
unfolding big_endian_onto
big_endian_onto-some zero n s h = (n, refl)
big_endian_onto-some (suc k) n [] h = ground arith
big_endian_onto-some (suc k) n (c ∷ s) h = big_endian_onto-some k _ s (ground arith)

-- GetDeterministicName does not panic, and names an adjective and a noun of the two tables in lower
-- case, with an underscore between them that gives the two words back; where the hash has 32 bytes and
-- the random numbers are below their bounds.
pub get_deterministic_name-IsName :
    {R : Type 0} (random : Random R) (seed_value : Bytes)
    → IsBounded random
    → length (random.sum256 seed_value) ≡ 32
    → (name : Bytes) × (get_deterministic_name random seed_value ≡ some name) × IsName name
unfolding get_deterministic_name draw_name
get_deterministic_name-IsName random seed_value bounded h =
    let seed = big_endian_onto-some 8 0 (random.sum256 seed_value) (ground arith) in
    let r = random.new_source (of_word seed.0) in
    let name =
      name_of-IsName (random.intn r (length left)).0
        (random.intn (random.intn r (length left)).1 (length right)).0
        (bounded r (length left) (ground arith)) (bounded _ (length right) (ground arith)) in
    (name.0, ap (draw_from random) seed.1 ∙ name.1, name.2)
