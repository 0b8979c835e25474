-- ===== src/Text/Split.antt =====
-- Laws of `strings.Split`, `strings.Join`, `strings.Cut` and `strings.HasPrefix`.
use cifuzz.Base.{
  ℕ, ◌≡◌, ◌≢◌, ◌↔◌, refl, ap, ◌∙◌, true, false, ◌||◌, Option, none, some, List, [], ◌∷◌, ◌++◌,
  arith, ◌==◌, if◌then◌else◌, All,
}
use cifuzz.Text.{Bytes, has_byte, has_prefix, cut, split, join, add_to_first}

-- The byte does not occur in the text.
abbrev pub Free : ℕ → Bytes → Type 0
Free c s = has_byte c s ≡ false

pub has_byte-append : (c : ℕ) (s t : Bytes) → has_byte c (s ++ t) ≡ (has_byte c s || has_byte c t)
unfolding has_byte
has_byte-append c [] t = refl
has_byte-append c (x ∷ s) t = ground (arith, has_byte-append c s t)

pub split-Free_self : (c : ℕ) (s : Bytes) → Free c s → split c s ≡ s ∷ []
unfolding split has_byte
split-Free_self c [] h = refl
split-Free_self c (x ∷ s) h = ground (arith, split-Free_self c s)

pub split-append : (c : ℕ) (s t : Bytes) → Free c s → split c (s ++ (c ∷ t)) ≡ s ∷ split c t
unfolding split has_byte
split-append c [] t h = ground arith
split-append c (x ∷ s) t h = ground (arith, split-append c s t)

pub split-ne-nil : (c : ℕ) (s : Bytes) → split c s ≢ []
unfolding split
split-ne-nil c [] h = cc
split-ne-nil c (x ∷ s) h = ground (arith, split-ne-nil c s)

-- Every part of a split is free of the separator.
pub split-Free : (c : ℕ) (s : Bytes) → All (Free c) (split c s)
unfolding split has_byte
split-Free c [] = (refl, tt)
split-Free c (x ∷ s) = Free-step (split c s) (split-Free c s)
  where
    Free-step :
        (parts : List Bytes)
        → All (Free c) parts
        → All (Free c) (if x == c then [] ∷ parts else add_to_first x parts)
    Free-step [] h = ground arith
    Free-step (p ∷ ps) h = ground arith

-- A byte that is not in the text is in no part of it.
pub Free-split : (c d : ℕ) (s : Bytes) → Free d s → All (Free d) (split c s)
unfolding split has_byte
Free-split c d [] h = (refl, tt)
Free-split c d (x ∷ s) h = step (split c s) (Free-split c d s (ground arith))
  where
    step :
        (parts : List Bytes)
        → All (Free d) parts
        → All (Free d) (if x == c then [] ∷ parts else add_to_first x parts)
    step [] k = ground arith
    step (p ∷ ps) k = ground arith

join-add_to_first :
    (x c : ℕ) (parts : List Bytes)
    → parts ≢ []
    → join (c ∷ []) (add_to_first x parts) ≡ x ∷ join (c ∷ []) parts
unfolding join
join-add_to_first x c [] h = absurd (h refl)
join-add_to_first x c (p ∷ []) h = refl
join-add_to_first x c (p ∷ q ∷ ps) h = refl

join-cons :
    (c : ℕ) (part : Bytes) (parts : List Bytes)
    → parts ≢ []
    → join (c ∷ []) (part ∷ parts) ≡ part ++ (c ∷ join (c ∷ []) parts)
unfolding join
join-cons c part [] h = absurd (h refl)
join-cons c part (p ∷ ps) h = refl

-- Joining what was split gives the text back.
pub join-split : (c : ℕ) (s : Bytes) → join (c ∷ []) (split c s) ≡ s
unfolding split
join-split c [] = unfold join in refl
join-split c (x ∷ s) = ground (
  arith,
  join-cons c [] (split c s) (split-ne-nil c s),
  join-add_to_first x c (split c s) (split-ne-nil c s),
  join-split c s,
)

-- Splitting what was joined gives the parts back, if none holds the separator.
pub split-join :
    (c : ℕ) (part : Bytes) (parts : List Bytes)
    → Free c part
    → All (Free c) parts
    → split c (join (c ∷ []) (part ∷ parts)) ≡ part ∷ parts
unfolding join
split-join c part [] h k = split-Free_self c part h
split-join c part (p ∷ ps) h k =
    split-append c part (join (c ∷ []) (p ∷ ps)) h ∙ ap (◌∷◌ part) (split-join c p ps k.0 k.1)

pub cut-append : (c : ℕ) (s t : Bytes) → Free c s → cut c (s ++ (c ∷ t)) ≡ some (s, t)
unfolding cut has_byte
cut-append c [] t h = ground arith
cut-append c (x ∷ s) t h = ground (arith, cut-append c s t)

-- What `cut` returns: the text up to the first separator, and the text behind it.
pub cut-eq-some : (c : ℕ) (s a b : Bytes) → cut c s ≡ some (a, b) → (s ≡ a ++ (c ∷ b)) × Free c a
unfolding cut has_byte
cut-eq-some c [] a b h = cc
cut-eq-some c (x ∷ s) a b h = go (cut c s) refl (cut-eq-some c s)
  where
    go :
        (o : Option (Bytes × Bytes))
        → cut c s ≡ o
        → ((a' b' : Bytes) → cut c s ≡ some (a', b') → (s ≡ a' ++ (c ∷ b')) × Free c a')
        → (x ∷ s ≡ a ++ (c ∷ b)) × Free c a
    go none e ih = ground arith
    go (some (before, after)) e ih = ground (arith, ih before after)

pub cut-eq-none : (c : ℕ) (s : Bytes) → (cut c s ≡ none) ↔ Free c s
unfolding cut has_byte
cut-eq-none c [] = ground arith
cut-eq-none c (x ∷ s) = ground (arith, cut-eq-none c s)

pub has_prefix-append : (p s : Bytes) → has_prefix (p ++ s) p ≡ true
unfolding has_prefix
has_prefix-append [] s = ground arith
has_prefix-append (x ∷ p) s = ground (arith, has_prefix-append p s)

pub has_prefix_split : (s p : Bytes) → has_prefix s p ≡ true → (t : Bytes) × (s ≡ p ++ t)
unfolding has_prefix
has_prefix_split s [] h = (s, refl)
has_prefix_split [] (y ∷ p) h = cc
has_prefix_split (x ∷ s) (y ∷ p) h =
    let (t, e) = has_prefix_split s p (ground arith) in (t, ground (arith, e))
