-- ===== src/Parser/Progress.antt =====
-- The times and maxima that `parseAsFuzzingMetric` of libfuzzer.go keeps.
use cifuzz.Base.{ℕ, ◌≡◌, true, false, some, arith}
use cifuzz.Base.Int.{ℤ, pos, negsuc}
use cifuzz.Parser.Metric.{
  Progress, Stats, int_lt, seconds_since, metric_of, next_progress, remember_features,
  remember_edges,
}

int_lt_irrefl : (a : ℤ) → int_lt a a ≡ false
int_lt_irrefl (pos m) = ground arith
int_lt_irrefl (negsuc m) = ground arith

int_lt_asym : (a b : ℤ) → int_lt a b ≡ true → int_lt b a ≡ false
int_lt_asym (pos m) (pos n) h = ground arith
int_lt_asym (pos m) (negsuc n) h = ground arith
int_lt_asym (negsuc m) (pos n) h = ground arith
int_lt_asym (negsuc m) (negsuc n) h = ground arith

seconds_since_now : (now : ℕ) → seconds_since (some now) now ≡ 0
seconds_since_now now = omega arith

-- The seconds that a metric reports are those since the time that the parser remembers behind it:
-- none when the line has a new highest number, the time since the last such line otherwise. The
-- code computes them before it updates the time, and resets them.
pub next_progress-metric_of :
    (now : ℕ) (st : Stats) (p : Progress)
    → ((metric_of now st p).seconds_since_last_feature
        ≡ seconds_since (next_progress now st p).last_new_feature_time now)
      × ((metric_of now st p).seconds_since_last_edge
          ≡ seconds_since (next_progress now st p).last_new_edge_time now)
unfolding metric_of next_progress remember_features remember_edges
next_progress-metric_of now st p = ground (arith, seconds_since_now now)

-- The remembered numbers are the highest so far: no less than those of the line, and than those before.
pub next_progress-highest :
    (now : ℕ) (st : Stats) (p : Progress)
    → let q = next_progress now st p in
      (int_lt q.last_features st.features ≡ false)
      × ((int_lt q.last_features p.last_features ≡ false)
          × (int_lt q.last_edges st.edges ≡ false)
          × (int_lt q.last_edges p.last_edges ≡ false))
unfolding next_progress remember_features remember_edges
next_progress-highest now st p = ground (
  arith,
  int_lt_irrefl st.features,
  int_lt_irrefl st.edges,
  int_lt_irrefl p.last_features,
  int_lt_irrefl p.last_edges,
  int_lt_asym p.last_features st.features,
  int_lt_asym p.last_edges st.edges,
)
