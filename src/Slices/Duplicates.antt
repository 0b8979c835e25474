-- ===== src/Slices/Duplicates.antt =====
-- `RemoveDuplicates` of sliceutil.go: what its result holds.
use cifuzz.Base.{
  ◌≡◌, refl, sym, ap, ◌∙◌, false, ◌||◌, List, [], ◌∷◌, ◌++◌, append_assoc, append-nil, arith,
  if◌then◌else◌, Bool-cases, inl, inr,
}
use cifuzz.Slices.{Comparable, contains, remove_duplicates_onto, remove_duplicates}

module _ {ℓ} {A : Type ℓ} ⦃c : Comparable A⦄ where
  pub contains-append :
      (xs ys : List A) (a : A) → contains (xs ++ ys) a ≡ (contains xs a || contains ys a)
  unfolding contains
  contains-append [] ys a = refl
  contains-append (x ∷ xs) ys a = ground (arith, contains-append xs ys a)

  -- No item occurs twice.
  abbrev pub NoDuplicates : List A → Type 0
  NoDuplicates [] = Unit
  NoDuplicates (x ∷ xs) = (contains xs x ≡ false) × NoDuplicates xs

  equals_comm : (a b : A) → c.equals a b ≡ c.equals b a
  equals_comm a b = elim (Bool-cases (c.equals a b)) [
    | inl e ↦ e ∙ sym ((c.equals_iff b a).1 (sym ((c.equals_iff a b).0 e)))
    | inr ne ↦ elim (Bool-cases (c.equals b a)) [
      | inl e ↦ absurd (cc (ne, (c.equals_iff a b).1 (sym ((c.equals_iff b a).0 e))))
      | inr ne' ↦ ne ∙ sym ne'
    ]
  ]

  pub NoDuplicates-concat :
      (xs : List A) (a : A)
      → NoDuplicates xs
      → contains xs a ≡ false
      → NoDuplicates (xs ++ (a ∷ []))
  unfolding contains
  NoDuplicates-concat [] a h k = (refl, tt)
  NoDuplicates-concat (x ∷ xs) a h k = (
    contains-append xs (a ∷ []) x ∙ ground (arith, equals_comm x a),
    NoDuplicates-concat xs a h.1 (ground arith),
  )

  onto-NoDuplicates :
      (xs res : List A) → NoDuplicates res → NoDuplicates (remove_duplicates_onto res xs)
  unfolding remove_duplicates_onto
  onto-NoDuplicates [] res h = h
  onto-NoDuplicates (x ∷ xs) res h = elim (Bool-cases (contains res x)) [
    | inl seen ↦ rw seen (onto-NoDuplicates xs res h)
    | inr fresh ↦
        rw fresh (onto-NoDuplicates xs (res ++ (x ∷ [])) (NoDuplicates-concat res x h fresh))
  ]

  contains_step :
      (res : List A) (x a : A)
      → contains (if contains res x then res else res ++ (x ∷ [])) a
        ≡ (contains res a || c.equals x a)
  contains_step res x a = elim (Bool-cases (contains res x)) [
    | inl seen ↦ rw seen (elim (Bool-cases (c.equals x a)) [
      | inl e ↦ ground (arith, sym (ap (contains res) ((c.equals_iff x a).0 e)) ∙ seen)
      | inr ne ↦ ground arith
    ])
    | inr fresh ↦ rw fresh (contains-append res (x ∷ []) a ∙ unfold contains in ground arith)
  ]

  onto-contains :
      (xs res : List A) (a : A)
      → contains (remove_duplicates_onto res xs) a ≡ (contains res a || contains xs a)
  unfolding remove_duplicates_onto contains
  onto-contains [] res a = ground arith
  onto-contains (x ∷ xs) res a = ground (
    arith,
    onto-contains xs (if contains res x then res else res ++ (x ∷ [])) a,
    contains_step res x a,
  )

  middle_fresh :
      (res : List A) (x : A) (xs : List A) → NoDuplicates (res ++ (x ∷ xs)) → contains res x ≡ false
  unfolding contains
  middle_fresh [] x xs h = refl
  middle_fresh (r ∷ res) x xs h =
      ground
        (arith, middle_fresh res x xs h.1, h.0, contains-append res (x ∷ xs) r, equals_comm r x)

  -- A list without duplicates comes back as it is.
  onto_fresh :
      (xs res : List A) → NoDuplicates (res ++ xs) → remove_duplicates_onto res xs ≡ res ++ xs
  unfolding remove_duplicates_onto
  onto_fresh [] res h = sym (append-nil res)
  onto_fresh (x ∷ xs) res h =
      let grown : NoDuplicates ((res ++ (x ∷ [])) ++ xs) = rw append_assoc h in
      rw (middle_fresh res x xs h)
        (onto_fresh xs (res ++ (x ∷ [])) grown ∙ append_assoc res (x ∷ []) xs)

  -- `RemoveDuplicates` returns each item of the slice exactly once, returns nothing else, and does
  -- nothing the second time.
  pub remove_duplicates_lem :
      (xs : List A)
      → NoDuplicates (remove_duplicates xs)
        × ((a : A) → contains (remove_duplicates xs) a ≡ contains xs a)
        × (remove_duplicates (remove_duplicates xs) ≡ remove_duplicates xs)
  unfolding remove_duplicates
  remove_duplicates_lem xs = (
    onto-NoDuplicates xs [] tt,
    (λ a. onto-contains xs [] a ∙ unfold contains in refl),
    onto_fresh (remove_duplicates_onto [] xs) [] (onto-NoDuplicates xs [] tt),
  )
