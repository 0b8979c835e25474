-- ===== src/Tests/UtilTests.antt =====
-- util/stringutil and util/sliceutil on concrete inputs.
use cifuzz.Base.{◌≡◌, refl, some, List, [], ◌∷◌}
use cifuzz.Base.Int.{pos}
use cifuzz.Text.{Bytes, codes, bytes_eq}
use cifuzz.Slices.{bytes_comparable, contains, remove_duplicates}
use cifuzz.Slices.Duplicates.{NoDuplicates, remove_duplicates_lem}
use cifuzz.Strings.{split_after_n_bytes}
use cifuzz.Strings.Chunks.{IsChunking, split_after_n_bytes_lem}

split_after_n_bytes_example :
    IsChunking (codes "abcdefgh") (pos 3) (split_after_n_bytes (codes "abcdefgh") (pos 3))
split_after_n_bytes_example = split_after_n_bytes_lem (codes "abcdefgh") (pos 3)

split-abcdefgh :
    split_after_n_bytes (codes "abcdefgh") (pos 3)
    ≡ some (codes "abc" ∷ codes "def" ∷ codes "gh" ∷ [])
unfolding split_after_n_bytes
split-abcdefgh = refl

abbrev fuzz_tests : List Bytes
fuzz_tests = codes "a" ∷ codes "b" ∷ codes "a" ∷ []

remove_duplicates_example :
    NoDuplicates (remove_duplicates fuzz_tests)
    × ((a : Bytes) → contains (remove_duplicates fuzz_tests) a ≡ contains fuzz_tests a)
    × (remove_duplicates (remove_duplicates fuzz_tests) ≡ remove_duplicates fuzz_tests)
remove_duplicates_example = remove_duplicates_lem fuzz_tests

remove-fuzz_tests : remove_duplicates fuzz_tests ≡ codes "a" ∷ codes "b" ∷ []
unfolding remove_duplicates bytes_eq
remove-fuzz_tests = refl
