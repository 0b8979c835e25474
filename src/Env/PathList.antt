-- ===== src/Env/PathList.antt =====
-- `AppendToPathList` of envutil.go on the list of the paths of its text.
use cifuzz.Base.{
  ℕ, ◌≡◌, ◌≢◌, refl, sym, ap, ◌∙◌, true, false, List, [], ◌∷◌, ◌++◌, arith, if◌then◌else◌,
  Bool-cases, append_assoc, append-nil, inl, inr, All, All-append,
}
use cifuzz.Text.{Bytes, bytes_eq, bytes_eq_refl, split, join}
use cifuzz.Text.Split.{Free, split-join, split-Free}
use cifuzz.Slices.{contains, bytes_comparable, remove_duplicates_onto, remove_duplicates}
use cifuzz.Slices.Duplicates.{contains-append}
use cifuzz.Strings.{non_empty, join_non_empty}
use cifuzz.Env.{append_missing, append_to_path_list}

-- The paths that a list names; empty entries name none.
abbrev pub paths : Bytes → List Bytes
paths list = non_empty (split b':' list)

-- A path that a list can hold.
abbrev pub IsPath : Bytes → Type 0
IsPath p = Free b':' p × (p ≢ [])

non_empty-append : (xs ys : List Bytes) → non_empty (xs ++ ys) ≡ non_empty xs ++ non_empty ys
unfolding non_empty
non_empty-append [] ys = refl
non_empty-append ([] ∷ xs) ys = non_empty-append xs ys
non_empty-append ((c ∷ x) ∷ xs) ys = ap (◌∷◌ (c ∷ x)) (non_empty-append xs ys)

non_empty_twice : (xs : List Bytes) → non_empty (non_empty xs) ≡ non_empty xs
unfolding non_empty
non_empty_twice [] = refl
non_empty_twice ([] ∷ xs) = non_empty_twice xs
non_empty_twice ((c ∷ x) ∷ xs) = ap (◌∷◌ (c ∷ x)) (non_empty_twice xs)

contains-non_empty :
    (xs : List Bytes) (c : ℕ) (p : Bytes) → contains (non_empty xs) (c ∷ p) ≡ contains xs (c ∷ p)
unfolding non_empty contains bytes_eq
contains-non_empty [] c p = refl
contains-non_empty ([] ∷ xs) c p = contains-non_empty xs c p
contains-non_empty ((d ∷ x) ∷ xs) c p = ground (arith, contains-non_empty xs c p)

-- Leaving out the empty entries first or last is the same.
non_empty-append_missing :
    (vs values : List Bytes)
    → All IsPath vs
    → non_empty (append_missing values vs) ≡ append_missing (non_empty values) vs
unfolding append_missing
non_empty-append_missing [] values h = refl
non_empty-append_missing ([] ∷ vs) values h = absurd (h.0.1 refl)
non_empty-append_missing ((c ∷ v) ∷ vs) values h = elim (Bool-cases (contains values (c ∷ v))) [
  | inl old ↦
      let old' = contains-non_empty values c v ∙ old in
      rw (old, old') (non_empty-append_missing vs values h.1)
  | inr new ↦
      let new' = contains-non_empty values c v ∙ new in
      rw (new, new')
        (non_empty-append_missing vs (values ++ ((c ∷ v) ∷ [])) h.1
          ∙ ap (λ l. append_missing l vs)
              (non_empty-append values ((c ∷ v) ∷ []) ∙ unfold non_empty in refl))
]

Free-append_missing :
    (vs values : List Bytes)
    → All (Free b':') values
    → All (Free b':') vs
    → All (Free b':') (append_missing values vs)
unfolding append_missing
Free-append_missing [] values h k = h
Free-append_missing (v ∷ vs) values h k = elim (Bool-cases (contains values v)) [
  | inl old ↦ rw old (Free-append_missing vs values h k.1)
  | inr new ↦ rw new (
      Free-append_missing vs (values ++ (v ∷ []))
        (All-append (Free b':') values (v ∷ []) h (k.0, tt)) k.1)
]

Free-non_empty : (xs : List Bytes) → All (Free b':') xs → All (Free b':') (non_empty xs)
unfolding non_empty
Free-non_empty [] h = tt
Free-non_empty ([] ∷ xs) h = Free-non_empty xs h.1
Free-non_empty ((c ∷ x) ∷ xs) h = (h.0, Free-non_empty xs h.1)

-- Reading back a joined list of paths.
pub paths-join_non_empty :
    (xs : List Bytes) → All (Free b':') xs → paths (join_non_empty xs (b':' ∷ [])) ≡ non_empty xs
unfolding join_non_empty
paths-join_non_empty xs h = go (non_empty xs) (Free-non_empty xs h) (non_empty_twice xs)
  where
    go :
        (ps : List Bytes)
        → All (Free b':') ps
        → non_empty ps ≡ ps
        → paths (join (b':' ∷ []) ps) ≡ ps
    go [] k e = unfold split join non_empty in refl
    go (p ∷ ps) k e = ap non_empty (split-join b':' p ps k.0 k.1) ∙ e

IsPath-Free : (vs : List Bytes) → All IsPath vs → All (Free b':') vs
IsPath-Free [] h = tt
IsPath-Free (v ∷ vs) h = (h.0.0, IsPath-Free vs h.1)

paths-append_missing :
    (values vs : List Bytes)
    → All (Free b':') values
    → All IsPath vs
    → paths (join_non_empty (append_missing values vs) (b':' ∷ []))
      ≡ append_missing (non_empty values) vs
paths-append_missing values vs f h =
    paths-join_non_empty (append_missing values vs)
      (Free-append_missing vs values f (IsPath-Free vs h))
    ∙ non_empty-append_missing vs values h

append_missing-append_to_path_list :
    (list : Bytes) (vs : List Bytes)
    → All IsPath vs
    → paths (append_to_path_list list vs) ≡ append_missing (paths list) vs
unfolding append_to_path_list
append_missing-append_to_path_list list [] h = refl
append_missing-append_to_path_list list (v ∷ vs) h =
    paths-append_missing (split b':' list) (v ∷ vs) (split-Free b':' list) h

-- The new paths that the old ones do not have
abbrev pub missing : List Bytes → List Bytes → List Bytes
missing old [] = []
missing old (v ∷ vs) = if contains old v then missing old vs else v ∷ missing old vs

remove_duplicates_onto-known :
    (added ms : List Bytes) (v : Bytes)
    → contains added v ≡ true
    → remove_duplicates_onto added (v ∷ ms) ≡ remove_duplicates_onto added ms
unfolding remove_duplicates_onto
remove_duplicates_onto-known added ms v h = rw h refl

remove_duplicates_onto-new :
    (added ms : List Bytes) (v : Bytes)
    → contains added v ≡ false
    → remove_duplicates_onto added (v ∷ ms) ≡ remove_duplicates_onto (added ++ (v ∷ [])) ms
unfolding remove_duplicates_onto
remove_duplicates_onto-new added ms v h = rw h refl

append_missing-split :
    (vs old added : List Bytes)
    → append_missing (old ++ added) vs ≡ old ++ remove_duplicates_onto added (missing old vs)
unfolding append_missing
append_missing-split [] old added = unfold remove_duplicates_onto in refl
append_missing-split (v ∷ vs) old added = elim (Bool-cases (contains old v)) [
  | inl is_old ↦
      let is_known : contains (old ++ added) v ≡ true =
        contains-append old added v ∙ ground (arith, is_old) in
      rw (is_old, is_known) (append_missing-split vs old added)
  | inr is_new ↦
      let same : contains (old ++ added) v ≡ contains added v =
        contains-append old added v ∙ ground (arith, is_new) in
      elim (Bool-cases (contains added v)) [
        | inl twice ↦
            rw (is_new, same ∙ twice, remove_duplicates_onto-known added (missing old vs) v twice)
              (append_missing-split vs old added)
        | inr once ↦
            rw
              (
                is_new,
                same ∙ once,
                remove_duplicates_onto-new added (missing old vs) v once,
                append_assoc,
              )
              (append_missing-split vs old (added ++ (v ∷ [])))
      ]
]

-- `AppendToPathList` keeps the paths of the list and puts behind them those new ones that the list does
-- not have, each once and in the order of their first occurrence, where each new path is not empty
-- and holds no separator.
pub paths-append_to_path_list :
    (list : Bytes) (vs : List Bytes)
    → All IsPath vs
    → paths (append_to_path_list list vs)
      ≡ paths list ++ remove_duplicates (missing (paths list) vs)
unfolding remove_duplicates
paths-append_to_path_list list vs h =
    append_missing-append_to_path_list list vs h
    ∙ ap (λ l. append_missing l vs) (sym (append-nil (paths list)))
    ∙ append_missing-split vs (paths list) []

contains-append_missing_old :
    (vs values : List Bytes) (p : Bytes)
    → contains values p ≡ true
    → contains (append_missing values vs) p ≡ true
unfolding append_missing
contains-append_missing_old [] values p h = h
contains-append_missing_old (v ∷ vs) values p h = elim (Bool-cases (contains values v)) [
  | inl old ↦ rw old (contains-append_missing_old vs values p h)
  | inr new ↦ rw new (
      contains-append_missing_old vs (values ++ (v ∷ [])) p
        (contains-append values (v ∷ []) p ∙ ground arith))
]

contains-append_missing :
    (vs values : List Bytes) → All (λ v. contains (append_missing values vs) v ≡ true) vs
unfolding append_missing
contains-append_missing [] values = tt
contains-append_missing (v ∷ vs) values =
    let values' = if contains values v then values else values ++ (v ∷ []) in
    (
      contains-append_missing_old vs values' v (elim (Bool-cases (contains values v)) [
        | inl old ↦ rw old old
        | inr new ↦
            rw new (
              contains-append values (v ∷ []) v
              ∙ unfold contains in ground (arith, bytes_eq_refl v))
      ]),
      contains-append_missing vs values',
    )

append_missing_idle :
    (vs values : List Bytes)
    → All (λ v. contains values v ≡ true) vs
    → append_missing values vs ≡ values
unfolding append_missing
append_missing_idle [] values h = refl
append_missing_idle (v ∷ vs) values h = rw h.0 (append_missing_idle vs values h.1)

-- The text is its paths, joined.
join-paths :
    (list v : Bytes) (vs : List Bytes)
    → All IsPath (v ∷ vs)
    → join (b':' ∷ []) (paths (append_to_path_list list (v ∷ vs)))
      ≡ append_to_path_list list (v ∷ vs)
unfolding append_to_path_list
join-paths list v vs h = ap (join (b':' ∷ [])) (
    paths-join_non_empty (append_missing (split b':' list) (v ∷ vs)) (
      Free-append_missing (v ∷ vs) (split b':' list) (split-Free b':' list)
        (IsPath-Free (v ∷ vs) h)))

-- Appending the same paths again changes nothing.
pub append_to_path_list_twice :
    (list : Bytes) (vs : List Bytes)
    → All IsPath vs
    → append_to_path_list (append_to_path_list list vs) vs ≡ append_to_path_list list vs
append_to_path_list_twice list [] h = unfold append_to_path_list in refl
append_to_path_list_twice list (v ∷ vs) h =
    let once = append_to_path_list list (v ∷ vs) in
    let added = append_missing (paths list) (v ∷ vs) in
    let first = append_missing-append_to_path_list list (v ∷ vs) h in
    let second = append_missing-append_to_path_list once (v ∷ vs) h in
    let idle = append_missing_idle (v ∷ vs) added (contains-append_missing (v ∷ vs) (paths list)) in
    sym (join-paths once v vs h)
    ∙ ap (join (b':' ∷ [])) (second ∙ ap (λ l. append_missing l (v ∷ vs)) first ∙ idle ∙ sym first)
    ∙ join-paths list v vs h
