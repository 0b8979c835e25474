-- ===== src/Slices.antt =====
-- util/sliceutil: `Contains`, `Equal` and `RemoveDuplicates`, over any comparable type.
pub mod Duplicates
use cifuzz.Base.{ℕ, ◌≡◌, ◌↔◌, Bool, true, false, ◌&&◌, ◌||◌, List, [], ◌∷◌, ◌++◌, if◌then◌else◌}
use cifuzz.Text.{Bytes, bytes_eq, bytes_eq_iff}

-- Go's `comparable`: `==` decides equality.
pub record Comparable {ℓ} (A : Type ℓ) : Type ℓ where
  pub equals : A → A → Bool
  pub equals_iff : (a b : A) → (equals a b ≡ true) ↔ (a ≡ b)

instance abbrev pub bytes_comparable : Comparable Bytes
bytes_comparable = record { equals = bytes_eq; equals_iff = bytes_eq_iff }

module _ {ℓ} {A : Type ℓ} ⦃c : Comparable A⦄ where
  -- `Contains`; on a slice of strings `reflect.DeepEqual` is `==`
  unfoldable pub contains : List A → A → Bool
  contains [] element = false
  contains (e ∷ slice) element = c.equals e element || contains slice element

  -- `Equal`; the loop compares the items pairwise after the test on the lengths
  unfoldable pub equal : List A → List A → Bool
  equal [] [] = true
  equal (a ∷ as') (b ∷ bs) = c.equals a b && equal as' bs
  equal _ _ = false

  -- The loop of `RemoveDuplicates`; the keys of its map are the items in `res`.
  unfoldable pub remove_duplicates_onto : List A → List A → List A
  unfolding contains
  remove_duplicates_onto res [] = res
  remove_duplicates_onto res (element ∷ slice) =
      remove_duplicates_onto (if contains res element then res else res ++ (element ∷ [])) slice

  unfoldable pub remove_duplicates : List A → List A
  unfolding remove_duplicates_onto
  remove_duplicates slice = remove_duplicates_onto [] slice
