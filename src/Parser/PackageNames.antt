-- ===== src/Parser/PackageNames.antt =====
-- The search of getJavaSourceFilePath in stacktrace.go through the packages of a name.
use cifuzz.Base.{
  ℕ, zero, suc, ◌≤◌, ◌<◌, ◌≡◌, ◌≢◌, ◌⊎◌, inl, inr, refl, sym, ap, ◌∙◌, Option, none, some, List, [],
  ◌∷◌, ◌++◌, length, length-append, append_assoc, arith, ==_iff,
}
use cifuzz.Base.Result.{ok}
use cifuzz.Text.{Bytes}
use cifuzz.Parser.StackTrace.{
  dot_behind, last_dot, or_empty, remove_last_part, or_shorter, source_file_in, lookup_package,
  java_source_file_path, ParserOptions, file_with_base, files_of,
}

abbrev IsBelow : ℕ → Option Bytes → Type 0
IsBelow n none = Unit
IsBelow n (some s) = length s < n

last_dot-IsBelow : (s : Bytes) → IsBelow (length s) (last_dot s)
last_dot-IsBelow [] = tt
last_dot-IsBelow (c ∷ s) = behind (last_dot s) (last_dot-IsBelow s)
  where
    behind : (r : Option Bytes) → IsBelow (length s) r → IsBelow (suc (length s)) (dot_behind c r)
    behind none h = ground arith
    behind (some before) h = ground arith

remove_last_part-length :
    (c : ℕ) (name : Bytes) → length (remove_last_part (c ∷ name)) ≤ length name
unfolding remove_last_part
remove_last_part-length c name = shorter (last_dot (c ∷ name)) (last_dot-IsBelow (c ∷ name))
  where
    shorter : (r : Option Bytes) → IsBelow (suc (length name)) r → length (or_empty r) ≤ length name
    shorter none h = ground arith
    shorter (some before) h = ground arith

-- A package and the packages around it, such as "a" and "a.b" of "a.b"
abbrev pub IsEnclosing : Bytes → Bytes → Type 0
IsEnclosing package_ name =
    (package_ ≡ name) ⊎ ((rest : Bytes) × (name ≡ package_ ++ (b'.' ∷ rest)))

-- The file of a package that has the name of the source file
abbrev pub file_in : List (Bytes × List Bytes) → Bytes → Bytes → Option Bytes
file_in m source_file package_ = file_with_base source_file (files_of m package_)

-- The file is that of the longest package around the name that has one; without one it is the source
-- file itself.
abbrev pub IsNearest : List (Bytes × List Bytes) → Bytes → Bytes → Bytes → Type 0
IsNearest m source_file name file =
    ((p : Bytes) × (p ≢ [])
      × IsEnclosing p name
      × (file_in m source_file p ≡ some file)
      × ((q : Bytes) → IsEnclosing q name → length p < length q → file_in m source_file q ≡ none))
    ⊎ ((file ≡ source_file)
        × ((q : Bytes) → q ≢ [] → IsEnclosing q name → file_in m source_file q ≡ none))

IsEnclosing-length : (q name : Bytes) → IsEnclosing q name → length q ≤ length name
IsEnclosing-length q name (inl e) = omega (arith, ap length e)
IsEnclosing-length q name (inr (rest, e)) =
    omega (arith, ap length e, length-append q (b'.' ∷ rest))

last_dot-eq-some : (s b : Bytes) → last_dot s ≡ some b → (r : Bytes) × (s ≡ b ++ (b'.' ∷ r))
last_dot-eq-some [] b h = ground (arith, h)
last_dot-eq-some (c ∷ s) b h = by_rest (last_dot s) refl h (last_dot-eq-some s)
  where
    by_rest :
        (o : Option Bytes)
        → last_dot s ≡ o
        → dot_behind c o ≡ some b
        → ((b' : Bytes) → last_dot s ≡ some b' → (r : Bytes) × (s ≡ b' ++ (b'.' ∷ r)))
        → (r : Bytes) × (c ∷ s ≡ b ++ (b'.' ∷ r))
    by_rest none e h ih = (s, ground (arith, h, ==_iff c b'.'))
    by_rest (some b') e h ih =
        let (r, split) = ih b' e in
        let same : c ∷ b' ≡ b = cc h in (r, ap (◌∷◌ c) split ∙ ap (λ x. x ++ (b'.' ∷ r)) same)

IsEnclosing-cons : (c : ℕ) (q b : Bytes) → IsEnclosing q b → IsEnclosing (c ∷ q) (c ∷ b)
IsEnclosing-cons c q b (inl e) = inl (ap (◌∷◌ c) e)
IsEnclosing-cons c q b (inr (rest, e)) = inr (rest, ap (◌∷◌ c) e)

last_dot-append :
    (q rest : Bytes) → (b : Bytes) × (last_dot (q ++ (b'.' ∷ rest)) ≡ some b) × IsEnclosing q b
last_dot-append [] rest = at_dot (last_dot rest) refl
  where
    at_dot :
        (r : Option Bytes)
        → last_dot rest ≡ r
        → (b : Bytes) × (dot_behind b'.' (last_dot rest) ≡ some b) × IsEnclosing [] b
    at_dot none e = ([], rw e refl, inl refl)
    at_dot (some b) e = (b'.' ∷ b, rw e refl, inr (b, refl))
last_dot-append (c ∷ q) rest =
    let (b, e, enclosing) = last_dot-append q rest in
    (c ∷ b, rw e refl, IsEnclosing-cons c q b enclosing)

IsEnclosing-nil : (q : Bytes) → IsEnclosing q [] → q ≡ []
IsEnclosing-nil [] h = refl
IsEnclosing-nil (c ∷ q) (inl e) = e
IsEnclosing-nil (c ∷ q) (inr (rest, e)) = ground (arith, e)

IsEnclosing-append :
    (q b name r : Bytes) → name ≡ b ++ (b'.' ∷ r) → IsEnclosing q b → IsEnclosing q name
IsEnclosing-append q b name r e (inl f) = inr (r, e ∙ ap (λ x. x ++ (b'.' ∷ r)) (sym f))
IsEnclosing-append q b name r e (inr (rest, f)) =
    inr (
      rest ++ (b'.' ∷ r),
      e ∙ ap (λ x. x ++ (b'.' ∷ r)) f ∙ append_assoc q (b'.' ∷ rest) (b'.' ∷ r),
    )

-- A package around a name is the name itself or stands around the name without its last part.
IsEnclosing-remove_last_part :
    (q name : Bytes) → IsEnclosing q name → (q ≡ name) ⊎ IsEnclosing q (remove_last_part name)
unfolding remove_last_part
IsEnclosing-remove_last_part q name (inl e) = inl e
IsEnclosing-remove_last_part q name (inr (rest, e)) =
    let (b, f, enclosing) = last_dot-append q rest in inr (rw (e, f) enclosing)

remove_last_part-IsEnclosing :
    (q name : Bytes) → q ≢ [] → IsEnclosing q (remove_last_part name) → IsEnclosing q name
unfolding remove_last_part
remove_last_part-IsEnclosing q name n h = by_dot (last_dot name) refl h
  where
    by_dot :
        (o : Option Bytes) → last_dot name ≡ o → IsEnclosing q (or_empty o) → IsEnclosing q name
    by_dot none e k = absurd (n (IsEnclosing-nil q k))
    by_dot (some b) e k =
        let (r, split) = last_dot-eq-some name b e in IsEnclosing-append q b name r split k

module _ (m : List (Bytes × List Bytes)) (source_file : Bytes) where
  -- The nearest file of the name without its last part is that of the name, if the name has none.
  IsNearest-remove_last_part :
      (name file : Bytes)
      → file_in m source_file name ≡ none
      → IsNearest m source_file (remove_last_part name) file
      → IsNearest m source_file name file
  IsNearest-remove_last_part name file gone (inl (p, n, around, hit, longer)) = inl (
    p,
    n,
    remove_last_part-IsEnclosing p name n around,
    hit,
    λ q k l. elim (IsEnclosing-remove_last_part q name k) [
      | inl e ↦ ap (file_in m source_file) e ∙ gone
      | inr k' ↦ longer q k' l
    ],
  )
  IsNearest-remove_last_part name file gone (inr (e, nowhere)) = inr (
    e,
    λ q n k. elim (IsEnclosing-remove_last_part q name k) [
      | inl e' ↦ ap (file_in m source_file) e' ∙ gone
      | inr k' ↦ nowhere q n k'
    ],
  )

  source_file_in-IsNearest :
      (fuel : ℕ) (name : Bytes)
      → length name ≤ fuel
      → (file : Bytes) × (source_file_in fuel m source_file name ≡ some file)
        × IsNearest m source_file name file
  unfolding source_file_in
  source_file_in-IsNearest fuel [] h =
      (source_file, refl, inr (refl, λ q n k. absurd (n (IsEnclosing-nil q k))))
  source_file_in-IsNearest zero (c ∷ name) h = absurd (omega arith)
  source_file_in-IsNearest (suc fuel) (c ∷ name) h =
      by_file (file_in m source_file (c ∷ name)) refl (
        source_file_in-IsNearest fuel (remove_last_part (c ∷ name))
          (ground (arith, remove_last_part-length c name)))
    where
      by_file :
          (o : Option Bytes)
          → file_in m source_file (c ∷ name) ≡ o
          → ((file : Bytes) × (source_file_in fuel m source_file (remove_last_part (c ∷ name))
                ≡ some file)
              × IsNearest m source_file (remove_last_part (c ∷ name)) file)
          → (file : Bytes) × (or_shorter o
                (source_file_in fuel m source_file (remove_last_part (c ∷ name)))
              ≡ some file)
            × IsNearest m source_file (c ∷ name) file
      by_file (some file) e rest = (
        file,
        refl,
        inl (
          c ∷ name,
          (λ n. ground (arith, n)),
          inl refl,
          e,
          λ q k l. absurd (omega (arith, IsEnclosing-length q (c ∷ name) k)),
        ),
      )
      by_file none e (file, found, nearest) =
          (file, found, IsNearest-remove_last_part (c ∷ name) file e nearest)

-- With a source map, the search for a Java source file ends, for any names: with the file of the longest
-- package around the function's class that has one of that name, and without such a package with the
-- source file itself.
pub java_source_file_path-IsNearest :
    (o : ParserOptions) (m : List (Bytes × List Bytes)) (source_file function : Bytes)
    → o.java_packages ≡ some m
    → (file : Bytes) × (java_source_file_path o source_file function ≡ ok file)
      × IsNearest m source_file (remove_last_part (remove_last_part function)) file
unfolding java_source_file_path lookup_package
java_source_file_path-IsNearest o m source_file function h =
    rw h (by_name (remove_last_part (remove_last_part function)))
  where
    by_name :
        (name : Bytes)
        → (file : Bytes) × (lookup_package (some m) source_file name ≡ ok file)
          × IsNearest m source_file name file
    by_name [] = (source_file, refl, inr (refl, λ q n k. absurd (n (IsEnclosing-nil q k))))
    by_name (c ∷ name) =
        let (file, found, nearest) =
          source_file_in-IsNearest m source_file (length (c ∷ name)) (c ∷ name) (omega arith) in
        (file, rw found refl, nearest)
