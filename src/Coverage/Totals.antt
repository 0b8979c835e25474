-- ===== src/Coverage/Totals.antt =====
-- The totals of a summary.
use cifuzz.Base.{ℕ, ◌+◌, ◌<◌, ◌≡◌, refl, ap, ◌∙◌, List, [], ◌∷◌, map, arith}
use cifuzz.Base.Int.{ℤ, pos, int_min_abs, add64, add64-pos}
use cifuzz.Coverage.{Overview, LcovReport, FileCoverage, no_overview, add_overview}
use cifuzz.Coverage.Lcov.{file_coverage, total_of, summarize}

-- The six counts of an overview, chosen by name.
pub data Count : Type 0 where
  functions_found functions_hit lines_found lines_hit branches_found branches_hit : Count

abbrev pub count : Count → Overview → ℤ
count functions_found o = o.functions_found
count functions_hit o = o.functions_hit
count lines_found o = o.lines_found
count lines_hit o = o.lines_hit
count branches_found o = o.branches_found
count branches_hit o = o.branches_hit

abbrev pub sum : List ℕ → ℕ
sum [] = 0
sum (n ∷ ns) = n + sum ns

-- The files have these counts.
abbrev pub HasCounts : Count → List FileCoverage → List ℕ → Type 0
HasCounts c [] [] = Unit
HasCounts c (f ∷ files) (n ∷ ns) = (count c f.coverage ≡ pos n) × HasCounts c files ns
HasCounts c _ _ = ⊥

count-add_overview :
    (c : Count) (t f : Overview) → count c (add_overview t f) ≡ add64 (count c t) (count c f)
count-add_overview functions_found t f = refl
count-add_overview _ t f = refl

count-total_of :
    (c : Count) (files : List FileCoverage) (ns : List ℕ) (total : Overview) (t : ℕ)
    → count c total ≡ pos t
    → HasCounts c files ns
    → t + sum ns < int_min_abs
    → count c (total_of total files) ≡ pos (t + sum ns)
unfolding total_of
count-total_of c [] [] total t e h fits = e ∙ ap pos (omega arith)
count-total_of c [] (n ∷ ns) total t e h fits = absurd h
count-total_of c (f ∷ files) [] total t e h fits = absurd h
count-total_of c (f ∷ files) (n ∷ ns) total t e h fits =
    let step : count c (add_overview total f.coverage) ≡ pos (t + n) =
      count-add_overview c total f.coverage ∙ ground (arith, e, h.0, add64-pos t n (omega arith)) in
    count-total_of c files ns (add_overview total f.coverage) (t + n) step h.1 (omega arith)
    ∙ ap pos (omega arith)

pub count-no_overview : (c : Count) → count c no_overview ≡ pos 0
count-no_overview functions_found = refl
count-no_overview _ = refl

-- Each total of a summary is the sum of that count over all files of the report, where the counts
-- are not negative and their sum fits into an `int`; and the summary lists the files in order.
pub summarize_lem :
    (report : LcovReport) (c : Count) (ns : List ℕ)
    → HasCounts c (map file_coverage report.source_files) ns
    → sum ns < int_min_abs
    → (count c (summarize report).total ≡ pos (sum ns))
      × ((summarize report).files ≡ map file_coverage report.source_files)
unfolding summarize
summarize_lem report c ns h fits = (
  count-total_of c (map file_coverage report.source_files) ns no_overview 0 (count-no_overview c) h
        (omega arith)
      ∙ ap pos (omega arith),
  refl,
)
