-- ===== src/Tests/HandlerTests.antt =====
-- The report handler of `cifuzz run` on a concrete run.
use cifuzz.Base.{◌≡◌, refl, false, none, some, List, [], ◌∷◌, ◌++◌, map, All}
use cifuzz.Base.Int.{pos}
use cifuzz.Base.Result.{ok, err}
use cifuzz.Text.{codes}
use cifuzz.Parser.Finding.{Finding, new_finding, crash}
use cifuzz.Parser.Report.{Report, FuzzingMetric, no_report, initializing, running}
use cifuzz.Handler.{HandlerOptions, Services, Handler, no_seed_corpus, handle_all, is_corpus_report}
use cifuzz.Handler.Findings.{IsNamed, taken, taken_all, last_all, first_all, handle_all_lem}

abbrev options : HandlerOptions
options = record {
  skip_saving_finding = false;
  json_output = false;
  using_updating_printer = false;
  fuzz_test = codes "my_fuzz_test";
}

abbrev services : Services
services = record {
  get_deterministic_name = λ seed. codes "focused_turing";
  copy_input_file = λ dir f. some (f.input_file, (dir ++ codes "/seed", f.logs));
  save = λ f. some f.input_file;
  to_json = λ r. some (codes "{}");
}

abbrev fresh : Handler
fresh = record {
  managed_seed_corpus_dir = [];
  generated_corpus_dir = [];
  init_started = false;
  init_finished = false;
  last_metrics = none;
  first_metrics = none;
  num_seeds_at_init = 0;
  findings = [];
  events = [];
}

abbrev metric : FuzzingMetric
metric = record {
  timestamp = 1;
  executions_per_second = pos 5;
  features = pos 11;
  corpus_size = pos 1;
  seconds_since_last_feature = 0;
  total_executions = 2;
  edges = pos 10;
  seconds_since_last_edge = 0;
}

abbrev overflow : Finding
overflow = record (new_finding crash (codes "heap-buffer-overflow") []) {
  input_file = codes "crash-1";
}

abbrev reports : List Report
reports =
    record no_report { status = initializing; num_seeds = 2 }
    ∷ record no_report { seed_corpus = codes "/seeds" }
    ∷ record no_report { status = running; metric = some metric }
    ∷ record no_report { status = running; finding = some overflow }
    ∷ []

abbrev final : Handler
final = elim (handle_all options services (λ n. n) 0 reports fresh) as (λ r. Handler) [
  | ok h ↦ h
  | err e ↦ fresh
]

handle_all_example :
    All (IsNamed options services) final.findings
    × ((map (λ f. f.details) final.findings ≡ taken_all reports)
        × ((final.last_metrics ≡ last_all reports none)
            × (final.first_metrics ≡ first_all reports none)))
unfolding handle_all is_corpus_report
handle_all_example = handle_all_lem options services (λ n. n) reports fresh final tt refl

taken_details : taken_all reports ≡ codes "heap-buffer-overflow" ∷ []
unfolding taken_all taken is_corpus_report
taken_details = refl

-- A finding with an input file before the directory of the seed corpus is known
no_corpus :
    handle_all options services
      (λ n. n)
      0
      (record no_report { status = running; finding = some overflow } ∷ [])
      fresh
    ≡ err no_seed_corpus
unfolding handle_all is_corpus_report
no_corpus = refl
