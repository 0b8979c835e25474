-- ===== src/Coverage.antt =====
-- pkg/parser/coverage: LCOV and JaCoCo reports and the summary of a coverage run.
pub mod Lcov
pub mod Write
pub mod RoundTrip
pub mod Totals
pub mod Jacoco
pub mod Agreement
use cifuzz.Base.{ℕ, List, [], ◌∷◌}
use cifuzz.Base.Int.{ℤ, pos, add64}
use cifuzz.Text.{Bytes}

pub record Function : Type 0 where
  pub name : Bytes
  pub line : ℤ

pub record FunctionExecution : Type 0 where
  pub name : Bytes
  pub executions : ℤ

pub record Line : Type 0 where
  pub number : ℤ
  pub executions : ℤ

pub record Branch : Type 0 where
  pub line : ℤ
  pub block : ℤ
  pub number : ℤ
  pub executions : ℤ

pub record Overview : Type 0 where
  pub functions_found : ℤ
  pub functions_hit : ℤ
  pub lines_found : ℤ
  pub lines_hit : ℤ
  pub branches_found : ℤ
  pub branches_hit : ℤ

pub record SourceFile : Type 0 where
  pub name : Bytes
  pub function_information : List Function
  pub function_executions : List FunctionExecution
  pub line_information : List Line
  pub branch_information : List Branch
  pub overview : Overview

pub record LcovReport : Type 0 where
  pub source_files : List SourceFile

-- `Overview{}` and `SourceFile{}`
abbrev pub no_overview : Overview
no_overview = record {
  functions_found = pos 0;
  functions_hit = pos 0;
  lines_found = pos 0;
  lines_hit = pos 0;
  branches_found = pos 0;
  branches_hit = pos 0;
}

abbrev pub no_source_file : SourceFile
no_source_file = record {
  name = [];
  function_information = [];
  function_executions = [];
  line_information = [];
  branch_information = [];
  overview = no_overview;
}

pub record FileCoverage : Type 0 where
  pub filename : Bytes
  pub coverage : Overview

pub record Summary : Type 0 where
  pub total : Overview
  pub files : List FileCoverage

-- One round of the loop that adds up the totals
abbrev pub add_overview : Overview → Overview → Overview
add_overview t f = record {
  functions_found = add64 t.functions_found f.functions_found;
  functions_hit = add64 t.functions_hit f.functions_hit;
  lines_found = add64 t.lines_found f.lines_found;
  lines_hit = add64 t.lines_hit f.lines_hit;
  branches_found = add64 t.branches_found f.branches_found;
  branches_hit = add64 t.branches_hit f.branches_hit;
}
