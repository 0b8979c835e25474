-- ===== src/Store/Newest.antt =====
-- The order of the local findings.
use cifuzz.Base.{ℕ, ◌≤◌, ◌≡◌, refl, ap, ◌∙◌, List, [], ◌∷◌, ◌==◌, if◌then◌else◌, arith}
use cifuzz.Base.Result.{Result, ok, ◌>>=◌}
use cifuzz.Text.{Bytes, codes}
use cifuzz.Text.FilePath.{join_path}
use cifuzz.Parser.Finding.{Finding, ErrorDetails}
use cifuzz.Store.Files.{Files, Json, content, StoreError}
use cifuzz.Store.Local.{created, insert_newest, sort_newest, load_all, listed, local_findings}

abbrev pub IsNewestFirst : List Finding → Type 0
IsNewestFirst [] = Unit
IsNewestFirst (f ∷ []) = Unit
IsNewestFirst (f ∷ (g ∷ fs)) = (created g ≤ created f) × IsNewestFirst (g ∷ fs)

-- The findings of one time, in order
unfoldable pub at_time : ℕ → List Finding → List Finding
at_time t [] = []
at_time t (f ∷ fs) = let rest = at_time t fs in if created f == t then f ∷ rest else rest

insert_newest-IsNewestFirst :
    (f : Finding) (fs : List Finding) → IsNewestFirst fs → IsNewestFirst (insert_newest f fs)
unfolding insert_newest
insert_newest-IsNewestFirst f [] h = tt
insert_newest-IsNewestFirst f (g ∷ []) h = ground arith
insert_newest-IsNewestFirst f (g ∷ (k ∷ fs)) h =
    ground (arith, insert_newest-IsNewestFirst f (k ∷ fs))

sort_newest-IsNewestFirst : (fs : List Finding) → IsNewestFirst (sort_newest fs)
unfolding sort_newest
sort_newest-IsNewestFirst [] = tt
sort_newest-IsNewestFirst (f ∷ fs) =
    insert_newest-IsNewestFirst f (sort_newest fs) (sort_newest-IsNewestFirst fs)

at_time-insert_newest :
    (t : ℕ) (f : Finding) (fs : List Finding) → at_time t (insert_newest f fs) ≡ at_time t (f ∷ fs)
unfolding insert_newest at_time
at_time-insert_newest t f [] = refl
at_time-insert_newest t f (g ∷ fs) = ground (arith, at_time-insert_newest t f fs)

at_time-sort_newest : (t : ℕ) (fs : List Finding) → at_time t (sort_newest fs) ≡ at_time t fs
unfolding sort_newest at_time
at_time-sort_newest t [] = refl
at_time-sort_newest t (f ∷ fs) =
    at_time-insert_newest t f (sort_newest fs)
    ∙ ap (λ rest. if created f == t then f ∷ rest else rest) (at_time-sort_newest t fs)

-- When every local finding loads, they are all listed, the newest first, and those of one time in the
-- order of their names in the directory.
pub local_findings_lem :
    {S : Type 0} (files : Files S) (json : Json)
    (collection : Result StoreError (List ErrorDetails)) (project_dir : Bytes) (s : S)
    (names : List Bytes) (found : List Finding)
    → files.read_dir s (join_path project_dir (codes ".cifuzz-findings")) ≡ content names
    → load_all files json collection project_dir names s ≡ ok found
    → (local_findings files json collection project_dir s ≡ ok (sort_newest found))
      × IsNewestFirst (sort_newest found)
      × ((t : ℕ) → at_time t (sort_newest found) ≡ at_time t found)
unfolding local_findings listed
local_findings_lem files json collection project_dir s names found e h = (
  ap (listed files json collection project_dir s) e ∙ ap (λ r. r >>= λ fs. ok (sort_newest fs)) h,
  sort_newest-IsNewestFirst found,
  λ t. at_time-sort_newest t found,
)
