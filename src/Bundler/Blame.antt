-- ===== src/Bundler/Blame.antt =====
-- internal/bundler/opts.go: what the errors of `Validate` say.
use cifuzz.Base.{
  ℕ, ◌≤◌, ◌≡◌, ◌≢◌, ◌⊎◌, inl, inr, refl, ap, ◌∙◌, Bool-cases, true, false, Option, none, some, List,
  [], ◌∷◌, All, arith,
}
use cifuzz.Base.Int.{ℤ, pos}
use cifuzz.Text.{Bytes, codes, bytes_eq, bytes_eq_iff, bytes_eq_refl, split}
use cifuzz.Parser.Detect.{trim_space}
use cifuzz.Store.CopyInput.{replace_all}
use cifuzz.Slices.{bytes_comparable, contains, remove_duplicates}
use cifuzz.Slices.Duplicates.{remove_duplicates_lem}
use cifuzz.Bundler.{Opts, Stat, Surroundings, OptsError, labels, multi_pattern, query_of}

abbrev pub IsTimeout : ℤ → Type 0
IsTimeout t = (t ≡ pos 0) ⊎ ((n : ℕ) × (t ≡ pos n) × (1000000000 ≤ n))

-- The query that Bazel is asked about fuzz tests
abbrev pub asked : Surroundings → Bytes → List Bytes → Option Bytes
asked p first others = p.bazel_query (query_of (multi_pattern first others))

-- The output of Bazel has no line but blank ones.
abbrev pub HasNoLabel : Bytes → Type 0
HasNoLabel out =
    All (λ line. trim_space line ≡ [])
      (split b'\n' (replace_all (trim_space out) (codes "\r\n") (codes "\n")))

-- What an error says of the machine and the options
abbrev pub IsBlamed : Surroundings → Opts → OptsError → Type 0
IsBlamed p opts (OptsError.dir_missing d) =
    (contains opts.seed_corpus_dirs d ≡ true) × (p.stat d ≡ Stat.not_exist)
IsBlamed p opts (OptsError.dir_inaccessible d) =
    (contains opts.seed_corpus_dirs d ≡ true) × (p.stat d ≡ Stat.stat_error)
IsBlamed p opts (OptsError.abs_failed d) =
    (contains opts.seed_corpus_dirs d ≡ true) × (p.abs d ≡ none)
IsBlamed p opts (OptsError.dictionary_inaccessible d) =
    (d ≡ opts.dictionary) × (d ≢ []) × (p.stat d ≢ Stat.found)
IsBlamed p opts OptsError.no_fuzz_test =
    ((opts.build_system ≡ codes "bazel") ⊎ (opts.build_system ≡ codes "other"))
    × (opts.fuzz_tests ≡ [])
IsBlamed p opts OptsError.query_failed =
    (opts.build_system ≡ codes "bazel")
    × ((first : Bytes) × (others : List Bytes) × (remove_duplicates opts.fuzz_tests
          ≡ first ∷ others)
        × (asked p first others ≡ none))
IsBlamed p opts (OptsError.no_targets patterns) =
    (opts.build_system ≡ codes "bazel")
    × ((first : Bytes) × (others : List Bytes) × (out : Bytes) × (patterns ≡ first ∷ others)
        × (remove_duplicates opts.fuzz_tests ≡ patterns)
        × (asked p first others ≡ some out)
        × HasNoLabel out)
IsBlamed p opts OptsError.no_build_command =
    (opts.build_system ≡ codes "other") × (opts.build_command ≡ [])
IsBlamed p opts (OptsError.short_timeout t) = (t ≡ opts.timeout) × ¬ IsTimeout t

pub labels_none :
    (lines : List Bytes) → labels lines ≡ [] → All (λ line. trim_space line ≡ []) lines
unfolding labels
labels_none [] h = tt
labels_none (line ∷ lines) h = elim (Bool-cases (bytes_eq (trim_space line) [])) [
  | inl e ↦ ((bytes_eq_iff _ _).0 e, labels_none lines (ground (arith, e, h)))
  | inr e ↦ absurd (ground (arith, e, h))
]

pub other_is_not_bazel : codes "other" ≢ codes "bazel"
unfolding bytes_eq
other_is_not_bazel e =
    let same : bytes_eq (codes "other") (codes "bazel") ≡ true =
      (bytes_eq_iff (codes "other") (codes "bazel")).1 e in
    ground (arith, same)

pub remove_duplicates_none : (xs : List Bytes) → remove_duplicates xs ≡ [] → xs ≡ []
remove_duplicates_none [] h = refl
remove_duplicates_none (x ∷ xs) h =
    let same : contains (remove_duplicates (x ∷ xs)) x ≡ contains (x ∷ xs) x =
      (remove_duplicates_lem (x ∷ xs)).1 x in
    let gone : contains (remove_duplicates (x ∷ xs)) x ≡ false =
      ap (λ l. contains l x) h ∙ unfold contains in refl in
    absurd (unfold contains in ground (arith, same, gone, bytes_eq_refl x))
