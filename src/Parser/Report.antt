-- ===== src/Parser/Report.antt =====
-- pkg/report/report.go
use cifuzz.Base.{ℕ, Option, none, []}
use cifuzz.Base.Int.{ℤ}
use cifuzz.Text.{Bytes}
use cifuzz.Parser.Finding.{Finding}

-- The zero value of the status is "".
pub data RunStatus : Type 0 where
  no_status unspecified pending compiling running stopped failed succeeded unknown : RunStatus
  initializing failed_to_start waiting_for_fuzzing_agents : RunStatus

pub record FuzzingMetric : Type 0 where
  pub timestamp : ℕ
  pub executions_per_second : ℤ
  pub features : ℤ
  pub corpus_size : ℤ
  pub seconds_since_last_feature : ℕ
  pub total_executions : ℕ
  pub edges : ℤ
  pub seconds_since_last_edge : ℕ

pub record Report : Type 0 where
  pub status : RunStatus
  pub metric : Option FuzzingMetric
  pub finding : Option Finding
  pub num_seeds : ℕ
  pub seed_corpus : Bytes
  pub generated_corpus : Bytes

abbrev pub no_report : Report
no_report = record {
  status = no_status;
  metric = none;
  finding = none;
  num_seeds = 0;
  seed_corpus = [];
  generated_corpus = [];
}
