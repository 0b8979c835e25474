-- ===== src/Strings/Chunks.antt =====
-- `SplitAfterNBytes` of stringutil.go: the chunks of a text.
use cifuzz.Base.{
  ℕ, zero, suc, ◌-◌, ◌≤◌, ◌<◌, ◌≡◌, ◌≢◌, refl, ap, ◌∙◌, Option, none, some, List, [], ◌∷◌, ◌++◌,
  append-nil, arith, ltb, length, Bool-cases, inl, inr,
}
use cifuzz.Base.Int.{ℤ, pos, negsuc}
use cifuzz.Text.{Bytes}
use cifuzz.Strings.{take, drop, chunks_loop, split_after_n_bytes}

abbrev pub concat : List Bytes → Bytes
concat [] = []
concat (c ∷ cs) = c ++ concat cs

-- Every chunk has `n` bytes, but for the last, which has between 1 and `n`.
abbrev pub HasChunkSizes : ℕ → List Bytes → Type 0
HasChunkSizes n [] = Unit
HasChunkSizes n (c ∷ []) = (0 < length c) × (length c ≤ n)
HasChunkSizes n (c ∷ d ∷ cs) = (length c ≡ n) × HasChunkSizes n (d ∷ cs)

take-drop : (n : ℕ) (s : Bytes) → take n s ++ drop n s ≡ s
take-drop zero s = refl
take-drop (suc n) [] = refl
take-drop (suc n) (x ∷ s) = ap (◌∷◌ x) (take-drop n s)

length-take : (n : ℕ) (s : Bytes) → n ≤ length s → length (take n s) ≡ n
length-take zero s h = refl
length-take (suc n) [] h = omega arith
length-take (suc n) (x ∷ s) h = omega (arith, length-take n s)

length-drop : (n : ℕ) (s : Bytes) → length (drop n s) ≡ length s - n
length-drop zero s = omega arith
length-drop (suc n) [] = omega arith
length-drop (suc n) (x ∷ s) = omega (arith, length-drop n s)

concat-chunks_loop :
    (fuel n : ℕ) (s : Bytes) → length s ≤ fuel → 0 < n → concat (chunks_loop fuel n s) ≡ s
unfolding chunks_loop
concat-chunks_loop zero n [] h k = refl
concat-chunks_loop zero n (x ∷ s) h k = absurd (omega arith)
concat-chunks_loop (suc fuel) n [] h k = refl
concat-chunks_loop (suc fuel) n (x ∷ s) h k = elim (Bool-cases (ltb n (length (x ∷ s)))) [
  | inl more ↦
      let shorter = length-drop n (x ∷ s) in
      let rest = concat-chunks_loop fuel n (drop n (x ∷ s)) (omega arith) k in
      rw more (ap (◌++◌ (take n (x ∷ s))) rest ∙ take-drop n (x ∷ s))
  | inr done ↦ rw done (append-nil (x ∷ s))
]

HasChunkSizes-cons :
    (n : ℕ) (c : Bytes) (cs : List Bytes)
    → length c ≡ n
    → cs ≢ []
    → HasChunkSizes n cs
    → HasChunkSizes n (c ∷ cs)
HasChunkSizes-cons n c [] e ne h = absurd (ne refl)
HasChunkSizes-cons n c (d ∷ cs) e ne h = (e, h)

chunks_loop-ne-nil :
    (fuel n : ℕ) (s : Bytes) → length s ≤ fuel → 0 < length s → chunks_loop fuel n s ≢ []
unfolding chunks_loop
chunks_loop-ne-nil zero n s h k e = omega arith
chunks_loop-ne-nil (suc fuel) n [] h k e = omega arith
chunks_loop-ne-nil (suc fuel) n (x ∷ s) h k e = ground arith

HasChunkSizes-loop :
    (fuel n : ℕ) (s : Bytes) → length s ≤ fuel → 0 < n → HasChunkSizes n (chunks_loop fuel n s)
unfolding chunks_loop
HasChunkSizes-loop zero n s h k = tt
HasChunkSizes-loop (suc fuel) n [] h k = tt
HasChunkSizes-loop (suc fuel) n (x ∷ s) h k = elim (Bool-cases (ltb n (length (x ∷ s)))) [
  | inl more ↦
      let rest = drop n (x ∷ s) in
      let shorter = length-drop n (x ∷ s) in
      let longer : n < length (x ∷ s) = ground arith in
      rw more (
        HasChunkSizes-cons n (take n (x ∷ s)) (chunks_loop fuel n rest)
          (length-take n (x ∷ s) (omega arith))
          (chunks_loop-ne-nil fuel n rest (omega arith) (omega arith))
          (HasChunkSizes-loop fuel n rest (omega arith) k))
  | inr done ↦ rw done (omega arith, ground arith)
]

-- What a chunk size allows: none for a size that is not positive, else the chunks.
abbrev pub IsChunking : Bytes → ℤ → Option (List Bytes) → Type 0
IsChunking s (pos (suc n)) (some cs) = (concat cs ≡ s) × HasChunkSizes (suc n) cs
IsChunking s (pos (suc n)) none = ⊥
IsChunking s (pos zero) r = r ≡ none
IsChunking s (negsuc n) r = r ≡ none

-- For a positive chunk size the chunks put together are the text, and every chunk is full but the
-- last, which is not empty; any other chunk size panics.
pub split_after_n_bytes_lem : (s : Bytes) (n : ℤ) → IsChunking s n (split_after_n_bytes s n)
unfolding split_after_n_bytes
split_after_n_bytes_lem s (pos zero) = refl
split_after_n_bytes_lem s (pos (suc n)) = (
  concat-chunks_loop (length s) (suc n) s (omega arith) (omega arith),
  HasChunkSizes-loop (length s) (suc n) s (omega arith) (omega arith),
)
split_after_n_bytes_lem s (negsuc n) = refl
