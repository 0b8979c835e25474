-- ===== src/Handler.antt =====
-- internal/cmd/run/reporthandler/reporthandler.go: what `cifuzz run` does with each report.
pub mod Findings
use cifuzz.Base.{
  ℕ, suc, Bool, true, false, not, ◌&&◌, ◌||◌, Option, none, some, List, [], ◌∷◌, ◌++◌, ◌==◌,
  if◌then◌else◌,
}
use cifuzz.Base.Result.{Result, ok, err, ◌>>=◌}
use cifuzz.Text.{Bytes, bytes_eq}
use cifuzz.Parser.Finding.{Finding, encode_stack_trace}
use cifuzz.Parser.Report.{Report, RunStatus, FuzzingMetric, initializing, running}

pub record HandlerOptions : Type 0 where
  pub skip_saving_finding : Bool
  pub json_output : Bool
  pub using_updating_printer : Bool
  pub fuzz_test : Bytes

-- What the handler calls: the names of package names, the copying of the input file to a seed corpus
-- (its new path, the path of the seed and the changed logs), the saving of a finding (the path of
-- its input), and the encoding of a report.
pub record Services : Type 0 where
  pub get_deterministic_name : Bytes → Bytes
  pub copy_input_file : Bytes → Finding → Option (Bytes × (Bytes × List Bytes))
  pub save : Finding → Option Bytes
  pub to_json : Report → Option Bytes

pub data HandleError : Type 0 where
  no_seed_corpus copy_failed save_failed json_failed : HandleError

-- What the user gets to see, in order
pub data Event : Type 0 where
  starting_from_empty_corpus initialized printer_started finding_instruction printer_cleared : Event
  initializing_with : ℕ → Event
  metrics_printed : FuzzingMetric → Event
  finding_logged : Finding → Event
  json_printed : Bytes → Event

-- The fields of `ReportHandler` that change
pub record Handler : Type 0 where
  pub managed_seed_corpus_dir : Bytes
  pub generated_corpus_dir : Bytes
  pub init_started : Bool
  pub init_finished : Bool
  pub last_metrics : Option FuzzingMetric
  pub first_metrics : Option FuzzingMetric
  pub num_seeds_at_init : ℕ
  pub findings : List Finding
  pub events : List Event

abbrev pub emit : Event → Handler → Handler
emit e h = record h { events = h.events ++ (e ∷ []) }

abbrev pub is_initializing : RunStatus → Bool
is_initializing initializing = true
is_initializing _ = false

abbrev pub is_running : RunStatus → Bool
is_running running = true
is_running _ = false

-- `Handle` on a report that only names a corpus
unfoldable pub is_corpus_report : Report → Bool
unfolding bytes_eq
is_corpus_report r = not (bytes_eq r.seed_corpus []) || not (bytes_eq r.generated_corpus [])

unfoldable pub set_corpus : Report → Handler → Handler
unfolding bytes_eq
set_corpus r h = record h {
  managed_seed_corpus_dir =
      if bytes_eq r.seed_corpus [] then h.managed_seed_corpus_dir else r.seed_corpus;
  generated_corpus_dir =
      if bytes_eq r.generated_corpus [] then h.generated_corpus_dir else r.generated_corpus;
}

-- `Handle`: the beginning of the initialization
unfoldable pub note_init_started : Report → Handler → Handler
note_init_started r h =
    if is_initializing r.status && not h.init_started
    then emit printer_started (
        if r.num_seeds == 0
        then emit starting_from_empty_corpus (record h {
          init_started = true;
          num_seeds_at_init = r.num_seeds;
          init_finished = true;
        })
        else emit (initializing_with r.num_seeds)
            (record h { init_started = true; num_seeds_at_init = r.num_seeds }))
    else h

-- `Handle`: the end of the initialization
unfoldable pub note_init_finished : Report → Handler → Handler
note_init_finished r h =
    if is_running r.status && not h.init_finished
    then emit printer_started (record (emit initialized h) { init_finished = true })
    else h

abbrev pub or_metric : Option FuzzingMetric → FuzzingMetric → Option FuzzingMetric
or_metric none m = some m
or_metric (some first) m = some first

-- `Handle`: the metric of the report
unfoldable pub note_metric : Option FuzzingMetric → Handler → Handler
note_metric none h = h
note_metric (some m) h =
    emit (metrics_printed m)
      (record h { last_metrics = some m; first_metrics = or_metric h.first_metrics m })

unfoldable pub apply_copy :
    Option (Bytes × (Bytes × List Bytes)) → Finding → Result HandleError Finding
apply_copy none f = err copy_failed
apply_copy (some (input_file, (seed_path, logs))) f =
    ok (record f { input_file = input_file; seed_path = seed_path; logs = logs })

-- `handleFinding`: the copy of the input file to the seed corpus
unfoldable pub copy_input : HandlerOptions → Services → Bytes → Finding → Result HandleError Finding
unfolding bytes_eq apply_copy
copy_input o w dir f =
    if bytes_eq f.input_file [] || o.skip_saving_finding
    then ok f
    else if bytes_eq dir []
    then err no_seed_corpus
    else apply_copy (w.copy_input_file dir f) f

unfoldable pub apply_save : Option Bytes → Finding → Result HandleError Finding
apply_save none f = err save_failed
apply_save (some input_file) f = ok (record f { input_file = input_file })

unfoldable pub save_finding : HandlerOptions → Services → Finding → Result HandleError Finding
unfolding apply_save
save_finding o w f = if o.skip_saving_finding then ok f else apply_save (w.save f) f

-- `handleFinding`: the finding as it is saved, with its name and its fuzz test
unfoldable pub complete_finding :
    HandlerOptions → Services → ℕ → Bytes → Finding → Result HandleError Finding
unfolding copy_input save_finding encode_stack_trace
complete_finding o w now dir f = do
  f' ← copy_input o w dir (record f {
    created_at = some now;
    name = w.get_deterministic_name (encode_stack_trace f.stack_trace ++ f.input_data);
  })
  save_finding o w (record f' { fuzz_test = o.fuzz_test })

abbrev pub note_instruction : Handler → Handler
note_instruction h = elim h.findings [ [] ↦ emit finding_instruction h | f ∷ fs ↦ h ]

-- `Handle`: the finding of the report. The list holds the finding that `handleFinding` changes.
unfoldable pub note_finding :
    HandlerOptions → Services → ℕ → Option Finding → Handler → Result HandleError Handler
unfolding complete_finding
note_finding o w now none h = ok h
note_finding o w now (some f) h = do
  f' ← complete_finding o w now h.managed_seed_corpus_dir f
  ok (emit (finding_logged f') (record (note_instruction h) { findings = h.findings ++ (f' ∷ []) }))

-- `writeJSONReport`
unfoldable pub write_json : Option Bytes → Handler → Result HandleError Handler
write_json none h = err json_failed
write_json (some s) h = ok (emit (json_printed s) h)

-- The finding of the report is the changed one, the last of the list.
abbrev pub last_finding : List Finding → Option Finding
last_finding [] = none
last_finding (f ∷ []) = some f
last_finding (f ∷ (g ∷ fs)) = last_finding (g ∷ fs)

abbrev pub updated_report : Report → Handler → Report
updated_report r h = elim r.finding [
  | none ↦ r
  | some f ↦ record r { finding = last_finding h.findings }
]

-- `Handle`, at the time `now`
unfoldable pub handle :
    HandlerOptions → Services → ℕ → Report → Handler → Result HandleError Handler
unfolding note_init_started note_init_finished note_metric note_finding write_json set_corpus
handle o w now r h = if is_corpus_report r then ok (set_corpus r h) else do
  h' ←
      note_finding o w now r.finding
        (note_metric r.metric (note_init_finished r (note_init_started r h)))
  write_json (w.to_json (updated_report r h'))
      (if o.json_output && o.using_updating_printer then emit printer_cleared h' else h')

-- The reports of a run, the n-th at the time `clock n`
unfoldable pub handle_all :
    HandlerOptions → Services → (ℕ → ℕ) → ℕ → List Report → Handler → Result HandleError Handler
unfolding handle
handle_all o w clock n [] h = ok h
handle_all o w clock n (r ∷ rs) h =
    handle o w (clock n) r h >>= λ h'. handle_all o w clock (suc n) rs h'
