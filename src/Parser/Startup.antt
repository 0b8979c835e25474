-- ===== src/Parser/Startup.antt =====
-- `parseLine` of libfuzzer.go before the fuzzer is initialized.
use cifuzz.Base.{ℕ, Bool, true, false, ◌||◌, Option, none, some, [], ◌∷◌, ◌++◌, ◌==◌, if◌then◌else◌}
use cifuzz.Base.Result.{Result, ok, err, ◌>>=◌}
use cifuzz.Text.{Bytes, codes, contains}
use cifuzz.Text.FilePath.{join_path}
use cifuzz.Regex.{find_named_groups_match, match_string, group_text}
use cifuzz.Parser.Report.{Report, initializing, no_report}
use cifuzz.Parser.Patterns.{
  non_empty_corpus_pattern, empty_corpus_pattern, jazzer_input_path_pattern,
}
use cifuzz.Parser.Metric.{parse_uint64}
use cifuzz.Parser.State.{
  Options, World, ParseError, State, send_report, startup_write_failed, invalid_seed_count,
}

pub data SeedCorpus : Type 0 where
  not_found : SeedCorpus
  bad_number : SeedCorpus
  seeds : ℕ → SeedCorpus

-- `parseAsSeedCorpusMessage`
unfoldable pub parse_as_seed_corpus_message : Bytes → SeedCorpus
unfolding parse_uint64
parse_as_seed_corpus_message line = elim (find_named_groups_match non_empty_corpus_pattern line) [
  | some result ↦ elim (parse_uint64 (group_text (codes "num_seeds") result)) [
    | none ↦ bad_number
    | some n ↦ seeds n
  ]
  | none ↦ if match_string empty_corpus_pattern line then seeds 0 else not_found
]

-- The part of `parseLine` before the initialization: the new state, and whether the line is done.
abbrev pub seed_message :
    Options → World → Bytes → SeedCorpus → State → Result ParseError (State × Bool)
seed_message o w line bad_number s = err (invalid_seed_count line)
seed_message o w line not_found s =
    if o.has_startup_output
    then elim (w.startup_write line) [
      | true ↦ ok (record s { startup_output = s.startup_output ++ (line ∷ []) }, false)
      | false ↦ err startup_write_failed
    ]
    else ok (s, false)
seed_message o w line (seeds n) s = do
  s' ←
      send_report w (record no_report { status = initializing; num_seeds = n })
        (record s { init_started = true; init_finished = s.init_finished || n == 0 })
  ok (s', true)

-- The report on a corpus directory of Jazzer, if the line names one
unfoldable pub corpus_report : Options → Bytes → Option Report
unfolding join_path contains
corpus_report o line =
    if o.support_jazzer || o.support_jazzer_js
    then elim (find_named_groups_match jazzer_input_path_pattern line) [
      | none ↦ none
      | some result ↦
          let input_path = group_text (codes "input_path") result in
          if contains input_path (join_path o.project_dir (codes ".cifuzz-corpus"))
          then some (record no_report { generated_corpus = input_path })
          else if contains input_path o.project_dir
          then some (record no_report { seed_corpus = input_path })
          else none
    ]
    else none

unfoldable pub report_corpus :
    Options → World → Bytes → Option Report → State → Result ParseError (State × Bool)
unfolding parse_as_seed_corpus_message send_report
report_corpus o w line (some r) s = do s' ← send_report w r s; ok (s', true)
report_corpus o w line none s = seed_message o w line (parse_as_seed_corpus_message line) s

unfoldable pub parse_startup : Options → World → Bytes → State → Result ParseError (State × Bool)
unfolding corpus_report report_corpus
parse_startup o w line s = report_corpus o w line (corpus_report o line) s
