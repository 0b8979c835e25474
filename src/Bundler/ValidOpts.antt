-- ===== src/Bundler/ValidOpts.antt =====
-- internal/bundler/opts.go: the options that `Validate` accepts.
use cifuzz.Base.{
  zero, suc, ◌≡◌, ◌≢◌, inl, inr, refl, sym, ◌∙◌, Bool, true, false, Option, none, some, List, [],
  ◌∷◌, ◌++◌, All, if◌then◌else◌, arith,
}
use cifuzz.Base.Int.{ℤ, pos, negsuc}
use cifuzz.Base.Result.{ok, ◌>>=◌, Ensures, Ensures-bind, Ensures-if, Ensures-map}
use cifuzz.Text.{Bytes, codes, bytes_eq, bytes_eq_iff, bytes_eq_refl, has_byte}
use cifuzz.Slices.{bytes_comparable, contains, remove_duplicates}
use cifuzz.Slices.Duplicates.{NoDuplicates, remove_duplicates_lem}
use cifuzz.Bundler.{
  Opts, Stat, Surroundings, dir_result, dictionary_result, labels_in, validate_corpus_dirs,
  evaluate_bazel_target_patterns, check_dictionary, some_targets, bazel_tests, fuzz_tests_of,
  some_test, check_other, is_short, check_timeout, resolve_env, with_tests, with_dirs, validate,
}
use cifuzz.Bundler.Blame.{
  IsTimeout, asked, IsBlamed, labels_none, other_is_not_bazel, remove_duplicates_none,
}

-- What the fuzz tests promise, for a build system
pub record HasTests (build_system : Bytes) (fuzz_tests : List Bytes) : Type 0 where
  pub bazel : build_system ≡ codes "bazel" → fuzz_tests ≢ []
  pub others : build_system ≢ codes "bazel" → NoDuplicates fuzz_tests

abbrev pub IsBuildable : Bytes → Bytes → List Bytes → Type 0
IsBuildable build_system build_command fuzz_tests =
    build_system ≡ codes "other" → (build_command ≢ []) × (fuzz_tests ≢ [])

pub record IsValid (opts : Opts) : Type 0 where
  pub tests : HasTests opts.build_system opts.fuzz_tests
  pub buildable : IsBuildable opts.build_system opts.build_command opts.fuzz_tests
  pub timed : IsTimeout opts.timeout
  pub env : All (λ e. has_byte b'=' e ≡ true) opts.env

module _ (p : Surroundings) (opts : Opts) where
  dir_lem :
      (d : Bytes) (s : Stat) (o : Option Bytes)
      → contains opts.seed_corpus_dirs d ≡ true
      → p.stat d ≡ s
      → p.abs d ≡ o
      → Ensures (λ a. Unit {0}) (IsBlamed p opts) (dir_result d s o)
  dir_lem d Stat.not_exist o k e f = (k, e)
  dir_lem d Stat.stat_error o k e f = (k, e)
  dir_lem d Stat.found none k e f = (k, f)
  dir_lem d Stat.found (some a) k e f = tt

  dirs_lem :
      (dirs : List Bytes)
      → ((d : Bytes) → contains dirs d ≡ true → contains opts.seed_corpus_dirs d ≡ true)
      → Ensures (λ ds. Unit {0}) (IsBlamed p opts) (validate_corpus_dirs p dirs)
  unfolding validate_corpus_dirs
  dirs_lem [] k = tt
  dirs_lem (d ∷ dirs) k =
      Ensures-bind _ _ (IsBlamed p opts) (dir_result d (p.stat d) (p.abs d)) _
        (dir_lem d _ _ (k d (unfold contains in ground (arith, bytes_eq_refl d))) refl refl)
        (λ a _.
          Ensures-bind _ _ (IsBlamed p opts) (validate_corpus_dirs p dirs) _
            (dirs_lem dirs (λ d' h. k d' (unfold contains in ground (arith, h)))) (λ others _. tt))

  dictionary_result_lem :
      (s : Stat)
      → opts.dictionary ≢ []
      → p.stat opts.dictionary ≡ s
      → Ensures (λ u. Unit {0}) (IsBlamed p opts) (dictionary_result opts.dictionary s)
  dictionary_result_lem Stat.found n e = tt
  dictionary_result_lem Stat.not_exist n e = (refl, n, ground (arith, e))
  dictionary_result_lem Stat.stat_error n e = (refl, n, ground (arith, e))

  dictionary_lem : Ensures (λ u. Unit {0}) (IsBlamed p opts) (check_dictionary p opts.dictionary)
  unfolding check_dictionary
  dictionary_lem =
      Ensures-if _ (IsBlamed p opts) (bytes_eq opts.dictionary []) _ _ (λ _. tt)
        (λ n.
          dictionary_result_lem (p.stat opts.dictionary)
            (λ e. absurd (ground (arith, bytes_eq_iff opts.dictionary [], n, e))) refl)

  module _ (b : opts.build_system ≡ codes "bazel") (first : Bytes) (others : List Bytes)
      (given : remove_duplicates opts.fuzz_tests ≡ first ∷ others) where
    found_lem :
        (out : Bytes) (ts : List Bytes)
        → asked p first others ≡ some out
        → labels_in (some out) ≡ ok ts
        → Ensures (λ ts. ts ≢ []) (IsBlamed p opts) (some_targets (first ∷ others) ts)
    unfolding some_targets labels_in
    found_lem out [] q e =
        (b, (first, others, out, refl, given, q, labels_none _ (ground (arith, e))))
    found_lem out (t ∷ ts) q e = ground arith

    query_lem :
        (out : Option Bytes)
        → asked p first others ≡ out
        → Ensures
            (λ ts. ts ≢ [])
            (IsBlamed p opts)
            (labels_in out >>= some_targets (first ∷ others))
    unfolding labels_in
    query_lem none q = (b, (first, others, given, q))
    query_lem (some out) q = found_lem out _ q refl

  bazel_tests_lem :
      (ts : List Bytes)
      → remove_duplicates opts.fuzz_tests ≡ ts
      → opts.build_system ≡ codes "bazel"
      → Ensures (λ ts. ts ≢ []) (IsBlamed p opts) (bazel_tests p ts)
  unfolding bazel_tests evaluate_bazel_target_patterns
  bazel_tests_lem [] g b = (inl b, remove_duplicates_none opts.fuzz_tests g)
  bazel_tests_lem (t ∷ ts) g b = query_lem b t ts g (asked p t ts) refl

  -- The fuzz tests that are left, and where they come from without Bazel
  HasGivenTests : List Bytes → Type 0
  HasGivenTests ts =
      HasTests opts.build_system ts
      × (opts.build_system ≢ codes "bazel" → ts ≡ remove_duplicates opts.fuzz_tests)

  tests_lem :
      Ensures HasGivenTests
        (IsBlamed p opts)
        (fuzz_tests_of p opts.build_system (remove_duplicates opts.fuzz_tests))
  unfolding fuzz_tests_of HasGivenTests
  tests_lem =
      let is_bazel = bytes_eq_iff opts.build_system (codes "bazel") in
      Ensures-if HasGivenTests (IsBlamed p opts) (bytes_eq opts.build_system (codes "bazel")) _ _
        (λ e.
          Ensures-map (λ ts. ts ≢ []) HasGivenTests (IsBlamed p opts) _
            (λ ts full. (
              record { bazel = λ _. full; others = λ other. absurd (other (is_bazel.0 e)) },
              λ other. absurd (other (is_bazel.0 e)),
            ))
            (bazel_tests_lem (remove_duplicates opts.fuzz_tests) refl (is_bazel.0 e)))
        (λ e. (
          record {
            bazel = λ b. absurd (ground (arith, is_bazel, e, b));
            others = λ _. (remove_duplicates_lem opts.fuzz_tests).0;
          },
          λ _. refl,
        ))

  some_test_lem :
      (ts : List Bytes)
      → (opts.build_system ≢ codes "bazel" → ts ≡ remove_duplicates opts.fuzz_tests)
      → opts.build_system ≡ codes "other"
      → Ensures (λ u. ts ≢ []) (IsBlamed p opts) (some_test ts)
  unfolding some_test
  some_test_lem [] k b =
      let given : [] ≡ remove_duplicates opts.fuzz_tests =
        k (λ c. other_is_not_bazel (sym b ∙ c)) in
      (inr b, remove_duplicates_none opts.fuzz_tests (sym given))
  some_test_lem (t ∷ ts) k b = ground arith

  other_lem :
      (ts : List Bytes)
      → (opts.build_system ≢ codes "bazel" → ts ≡ remove_duplicates opts.fuzz_tests)
      → Ensures
          (λ u. IsBuildable opts.build_system opts.build_command ts)
          (IsBlamed p opts)
          (check_other opts.build_system opts.build_command ts)
  unfolding check_other
  other_lem ts k =
      let is_other = bytes_eq_iff opts.build_system (codes "other") in
      let is_empty = bytes_eq_iff opts.build_command [] in
      Ensures-if _ (IsBlamed p opts) (bytes_eq opts.build_system (codes "other")) _ _
        (λ b.
          Ensures-if _ (IsBlamed p opts) (bytes_eq opts.build_command []) _ _
            (λ e. (is_other.0 b, is_empty.0 e))
            (λ e.
              Ensures-map (λ u. ts ≢ []) (λ u. IsBuildable opts.build_system opts.build_command ts)
                (IsBlamed p opts) _
                (λ u full _. ((λ c. absurd (ground (arith, is_empty, e, c))), full))
                (some_test_lem ts k (is_other.0 b))))
        (λ b o. absurd (ground (arith, is_other, b, o)))

  short_lem : (t : ℤ) → is_short t ≡ true → ¬ IsTimeout t
  short_lem (pos zero) e h = ground (arith, e)
  short_lem (pos (suc m)) e (inl z) = ground (arith, z)
  short_lem (pos (suc m)) e (inr (n, q, long)) = ground (arith, e, q, long)
  short_lem (negsuc m) e (inl z) = ground (arith, z)
  short_lem (negsuc m) e (inr (n, q, long)) = ground (arith, q)

  long_lem : (t : ℤ) → is_short t ≡ false → IsTimeout t
  long_lem (pos zero) e = inl refl
  long_lem (pos (suc n)) e = inr (suc n, refl, ground (arith, e))
  long_lem (negsuc n) e = ground (arith, e)

  timeout_lem : Ensures (λ u. IsTimeout opts.timeout) (IsBlamed p opts) (check_timeout opts.timeout)
  unfolding check_timeout
  timeout_lem =
      Ensures-if _ (IsBlamed p opts) (is_short opts.timeout) _ _
        (λ s. (refl, short_lem opts.timeout s)) (long_lem opts.timeout)

  has_byte-append : (e v : Bytes) → has_byte b'=' (e ++ (b'=' ∷ v)) ≡ true
  unfolding has_byte
  has_byte-append [] v = ground arith
  has_byte-append (c ∷ e) v = ground (arith, has_byte-append e v)

  env_lem : (env : List Bytes) → All (λ e. has_byte b'=' e ≡ true) (resolve_env p env)
  unfolding resolve_env
  env_lem [] = tt
  env_lem (e ∷ env) = by_case (has_byte b'=' e) (bytes_eq (p.getenv e) []) refl (env_lem env)
    where
      by_case :
          (h blank : Bool)
          → has_byte b'=' e ≡ h
          → All (λ e. has_byte b'=' e ≡ true) (resolve_env p env)
          → All
              (λ e. has_byte b'=' e ≡ true)
              (if h
                then e ∷ resolve_env p env
                else if blank
                then resolve_env p env
                else (e ++ (codes "=" ++ p.getenv e)) ∷ resolve_env p env)
      by_case true blank h rest = (h, rest)
      by_case false true h rest = rest
      by_case false false h rest = (has_byte-append e (p.getenv e), rest)

  with_tests_lem :
      (dirs ts : List Bytes)
      → HasGivenTests ts
      → Ensures IsValid (IsBlamed p opts) (with_tests p opts dirs ts)
  unfolding with_tests HasGivenTests
  with_tests_lem dirs ts has =
      let after : Opts = record opts {
        seed_corpus_dirs = dirs;
        fuzz_tests = ts;
        env = resolve_env p opts.env;
      } in
      Ensures-bind (λ u. IsBuildable opts.build_system opts.build_command ts) IsValid
        (IsBlamed p opts) (check_other opts.build_system opts.build_command ts)
        (λ u. check_timeout opts.timeout >>= λ u. ok after) (other_lem ts has.1)
        (λ u buildable.
          Ensures-bind (λ u. IsTimeout opts.timeout) IsValid (IsBlamed p opts)
            (check_timeout opts.timeout) (λ u. ok after) timeout_lem
            (λ u timed. record {
              tests = has.0;
              buildable = buildable;
              timed = timed;
              env = env_lem opts.env;
            }))

  with_dirs_lem : (dirs : List Bytes) → Ensures IsValid (IsBlamed p opts) (with_dirs p opts dirs)
  unfolding with_dirs
  with_dirs_lem dirs =
      let tests = fuzz_tests_of p opts.build_system (remove_duplicates opts.fuzz_tests) in
      Ensures-bind (λ u. Unit {0}) IsValid (IsBlamed p opts) (check_dictionary p opts.dictionary)
        (λ u. tests >>= with_tests p opts dirs) dictionary_lem
        (λ u _.
          Ensures-bind HasGivenTests IsValid (IsBlamed p opts) tests (with_tests p opts dirs)
            tests_lem (with_tests_lem dirs))

-- Options that `Validate` accepts have fuzz tests where Bazel or another build system needs them, none
-- of them twice unless Bazel named them, a build command for another build system, no timeout or one
-- of a second at least, and a value for each environment variable. An error that it returns names a
-- given directory, the given dictionary or the given timeout and what is wrong with it; or the build
-- system needs a fuzz test and none is given, or a build command; or the query of Bazel about the
-- given tests failed or printed only blank lines.
pub validate_lem :
    (p : Surroundings) (opts : Opts) → Ensures IsValid (IsBlamed p opts) (validate p opts)
unfolding validate
validate_lem p opts =
    Ensures-bind (λ u. Unit {0}) IsValid (IsBlamed p opts)
      (validate_corpus_dirs p opts.seed_corpus_dirs) (with_dirs p opts)
      (dirs_lem p opts opts.seed_corpus_dirs (λ d h. h)) (λ dirs _. with_dirs_lem p opts dirs)
