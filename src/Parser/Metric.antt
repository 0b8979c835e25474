-- ===== src/Parser/Metric.antt =====
-- `parseAsFuzzingMetric` of libfuzzer.go.
use cifuzz.Base.{
  ℕ, ◌-◌, ◌/◌, ◌%◌, ◌^◌, Bool, true, false, Option, none, some, [], ◌∷◌, ltb, if◌then◌else◌,
}
use cifuzz.Base.Int.{ℤ, pos, negsuc}
use cifuzz.Text.{Bytes, codes}
use cifuzz.Text.Decimal.{atoi, number}
use cifuzz.Regex.{Captures, find_named_groups_match, group_text}
use cifuzz.Parser.Report.{FuzzingMetric}
use cifuzz.Parser.Patterns.{stats_pattern}

-- What the parser remembers of earlier metrics; a time is in nanoseconds, `none` is the zero time.
pub record Progress : Type 0 where
  pub last_new_feature_time : Option ℕ
  pub last_features : ℤ
  pub last_new_edge_time : Option ℕ
  pub last_edges : ℤ

-- The numbers of one metrics line, and its status
pub record Stats : Type 0 where
  pub total_execs : ℕ
  pub features : ℤ
  pub edges : ℤ
  pub execs_per_sec : ℤ
  pub corpus_size : ℤ
  pub status : Bytes

-- `strconv.ParseUint(s, 10, 64)`
unfoldable pub parse_uint64 : Bytes → Option ℕ
parse_uint64 s = elim (number s) [ none ↦ none | some n ↦ if ltb n (2 ^ 64) then some n else none ]

infixl 5 ◌>>=◌
abbrev ◌>>=◌ {ℓ κ} : {A : Type ℓ} {B : Type κ} → Option A → (A → Option B) → Option B
none >>= f = none
some a >>= f = f a

-- The `cov:` part may be missing.
abbrev edges_of : Bytes → Option ℤ
edges_of [] = some (pos 0)
edges_of (c ∷ text) = atoi (c ∷ text)

-- The numbers of a match; a number that does not fit makes it no metric.
unfoldable pub stats_of : Captures → Option Stats
unfolding parse_uint64
stats_of result = do
  total_execs ← parse_uint64 (group_text (codes "total_execs") result)
  features ← atoi (group_text (codes "features") result)
  edges ← edges_of (group_text (codes "edges") result)
  execs_per_sec ← atoi (group_text (codes "executions_per_second") result)
  corpus_size ← atoi (group_text (codes "corpus_size") result)
  some (record {
    total_execs = total_execs;
    features = features;
    edges = edges;
    execs_per_sec = execs_per_sec;
    corpus_size = corpus_size;
    status = group_text (codes "status") result;
  })

unfoldable pub parse_stats : Bytes → Option Stats
unfolding stats_of
parse_stats line = find_named_groups_match stats_pattern line >>= stats_of

-- `now.Sub(t)` in whole seconds; Go's clock does not run backwards.
abbrev pub seconds_since : Option ℕ → ℕ → ℕ
seconds_since none now = 0
seconds_since (some t) now = (now - t) / 1000000000

-- `a < b` on `int`
abbrev pub int_lt : ℤ → ℤ → Bool
int_lt (pos m) (pos n) = ltb m n
int_lt (pos m) (negsuc n) = false
int_lt (negsuc m) (pos n) = true
int_lt (negsuc m) (negsuc n) = ltb n m

-- `int32(n)`
abbrev pub to_int32 : ℤ → ℤ
to_int32 (pos n) = let w = n % 2 ^ 32 in if ltb w (2 ^ 31) then pos w else negsuc (2 ^ 32 - 1 - w)
to_int32 (negsuc n) =
    let w = n % 2 ^ 32 in if ltb w (2 ^ 31) then negsuc w else pos (2 ^ 32 - 1 - w)

-- A new highest number of features or edges is remembered with its time.
unfoldable pub remember_features : ℕ → ℤ → Progress → Progress
remember_features now features p =
    if int_lt p.last_features features
    then record p { last_new_feature_time = some now; last_features = features }
    else p

unfoldable pub remember_edges : ℕ → ℤ → Progress → Progress
remember_edges now edges p =
    if int_lt p.last_edges edges
    then record p { last_new_edge_time = some now; last_edges = edges }
    else p

unfoldable pub metric_of : ℕ → Stats → Progress → FuzzingMetric
metric_of now st p = record {
  timestamp = now;
  executions_per_second = to_int32 st.execs_per_sec;
  features = to_int32 st.features;
  corpus_size = to_int32 st.corpus_size;
  seconds_since_last_feature =
      if int_lt p.last_features st.features then 0 else seconds_since p.last_new_feature_time now;
  total_executions = st.total_execs;
  edges = to_int32 st.edges;
  seconds_since_last_edge =
      if int_lt p.last_edges st.edges then 0 else seconds_since p.last_new_edge_time now;
}

unfoldable pub next_progress : ℕ → Stats → Progress → Progress
unfolding remember_features remember_edges
next_progress now st p = remember_edges now st.edges (remember_features now st.features p)
