-- ===== src/Strings.antt =====
-- util/stringutil: the helpers on slices of strings.
pub mod Chunks
use cifuzz.Base.{
  ℕ, zero, suc, ◌+◌, Bool, true, false, not, ◌||◌, Option, none, some, List, [], ◌∷◌, ◌++◌, ltb,
  if◌then◌else◌, length,
}
use cifuzz.Base.Int.{ℤ, pos, negsuc}
use cifuzz.Text.{Bytes, bytes_eq, has_prefix, join}

-- `NonEmpty`
unfoldable pub non_empty : List Bytes → List Bytes
non_empty [] = []
non_empty ([] ∷ elems) = non_empty elems
non_empty ((x ∷ e) ∷ elems) = (x ∷ e) ∷ non_empty elems

-- `JoinNonEmpty`
unfoldable pub join_non_empty : List Bytes → Bytes → Bytes
unfolding non_empty
join_non_empty elems sep = join sep (non_empty elems)

-- The loop of `JoinSlices` over `slices[1:]`
join_onto : List Bytes → Bytes → List (List Bytes) → List Bytes
join_onto res sep [] = res
join_onto res sep (s ∷ slices) = join_onto ((res ++ (sep ∷ [])) ++ s) sep slices

-- `JoinSlices`
unfoldable pub join_slices : Bytes → List (List Bytes) → List Bytes
unfolding join_onto
join_slices sep [] = []
join_slices sep (s ∷ slices) = join_onto s sep slices

-- `Contains`
unfoldable pub contains_string : List Bytes → Bytes → Bool
contains_string [] element = false
contains_string (e ∷ slice) element = bytes_eq e element || contains_string slice element

-- `Index`; `none` is the result -1
unfoldable pub index : List Bytes → Bytes → Option ℕ
index [] element = none
index (e ∷ slice) element =
    if bytes_eq e element
    then some 0
    else elim (index slice element) [ none ↦ none | some i ↦ some (i + 1) ]

-- `ContainsStringWithPrefix`
unfoldable pub contains_string_with_prefix : List Bytes → Bytes → Bool
contains_string_with_prefix [] prefix = false
contains_string_with_prefix (e ∷ slice) prefix =
    has_prefix e prefix || contains_string_with_prefix slice prefix

-- `SubtractSlices`; its map `mb` is the set of the items of `b`
unfoldable pub subtract_slices : List Bytes → List Bytes → List Bytes
unfolding contains_string
subtract_slices [] b = []
subtract_slices (x ∷ a) b =
    let diff = subtract_slices a b in if not (contains_string b x) then x ∷ diff else diff

max_len_onto : ℕ → List Bytes → ℕ
max_len_onto res [] = res
max_len_onto res (e ∷ elems) = max_len_onto (if ltb res (length e) then length e else res) elems

-- `MaxLen`
unfoldable pub max_len : List Bytes → ℕ
unfolding max_len_onto
max_len elems = max_len_onto 0 elems

-- `s[:n]` and `s[n:]`
abbrev pub take : ℕ → Bytes → Bytes
take zero s = []
take (suc n) [] = []
take (suc n) (x ∷ s) = x ∷ take n s

abbrev pub drop : ℕ → Bytes → Bytes
drop zero s = s
drop (suc n) [] = []
drop (suc n) (x ∷ s) = drop n s

-- The loop of `SplitAfterNBytes`, on the rest `s[i:]` of the text. The loop is left when the rest
-- is empty; each round takes at least one byte, so the length of the text is enough fuel.
unfoldable pub chunks_loop : ℕ → ℕ → Bytes → List Bytes
chunks_loop zero n s = []
chunks_loop (suc fuel) n [] = []
chunks_loop (suc fuel) n (x ∷ s) =
    let more = take n (x ∷ s) ∷ chunks_loop fuel n (drop n (x ∷ s)) in
    if ltb n (length (x ∷ s)) then more else (x ∷ s) ∷ []

-- `SplitAfterNBytes`; `none` is the panic on a chunk size that is not positive
unfoldable pub split_after_n_bytes : Bytes → ℤ → Option (List Bytes)
unfolding chunks_loop
split_after_n_bytes s (pos zero) = none
split_after_n_bytes s (pos (suc n)) = some (chunks_loop (length s) (suc n) s)
split_after_n_bytes s (negsuc n) = none
