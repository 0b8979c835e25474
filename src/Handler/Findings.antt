-- ===== src/Handler/Findings.antt =====
-- The findings and metrics that the report handler of `cifuzz run` has at the end of a run.
use cifuzz.Base.{
  ℕ, suc, ◌≡◌, refl, sym, ap, subst, ◌&&◌, ◌∙◌, Bool, true, false, Option, none, some, List, [],
  ◌∷◌, ◌++◌, map, append-nil, append_assoc, All, All-append, arith, if◌then◌else◌,
}
use cifuzz.Base.Result.{Result, ok, err, ◌>>=◌, Ensures, Ensures-bind, Ensures-ok}
use cifuzz.Text.{Bytes}
use cifuzz.Parser.Finding.{Finding, encode_stack_trace}
use cifuzz.Parser.Report.{Report, FuzzingMetric}
use cifuzz.Parser.Accounting.{listed}
use cifuzz.Handler.{
  HandlerOptions, Services, HandleError, Handler, copy_input, apply_copy, save_finding, apply_save,
  complete_finding, note_finding, note_metric, note_init_started, note_init_finished, set_corpus,
  is_corpus_report, write_json, handle, handle_all, emit, note_instruction, printer_cleared,
}

-- The first that is there
abbrev pub or_last : Option FuzzingMetric → Option FuzzingMetric → Option FuzzingMetric
or_last none last = last
or_last (some m) last = some m

-- The details of the finding that the handler takes from a report
unfoldable pub taken : Report → List Bytes
taken r = if is_corpus_report r then [] else map (λ f. f.details) (listed r.finding)

-- The last metric that the handler takes from a report, and the first
unfoldable pub next_last : Report → Option FuzzingMetric → Option FuzzingMetric
next_last r last = if is_corpus_report r then last else or_last r.metric last

unfoldable pub next_first : Report → Option FuzzingMetric → Option FuzzingMetric
next_first r first = if is_corpus_report r then first else or_last first r.metric

-- The details, the last metric and the first metric of a sequence of reports
unfoldable pub taken_all : List Report → List Bytes
taken_all [] = []
taken_all (r ∷ rs) = taken r ++ taken_all rs

unfoldable pub last_all : List Report → Option FuzzingMetric → Option FuzzingMetric
last_all [] last = last
last_all (r ∷ rs) last = last_all rs (next_last r last)

unfoldable pub first_all : List Report → Option FuzzingMetric → Option FuzzingMetric
first_all [] first = first
first_all (r ∷ rs) first = first_all rs (next_first r first)

subst2 :
    (P : Option FuzzingMetric → Option FuzzingMetric → Type 0) {a b c d : Option FuzzingMetric}
    → a ≡ b
    → c ≡ d
    → P a c
    → P b d
subst2 P {a} {b} {c} {d} e k p = subst (λ x. P x d) e (subst (P a) k p)

module _ (o : HandlerOptions) (w : Services) where
  -- The name is that of the stack trace and the input, and the fuzz test is the one that is run.
  abbrev pub IsNamed : Finding → Type 0
  IsNamed f =
      (f.name ≡ w.get_deterministic_name (encode_stack_trace f.stack_trace ++ f.input_data))
      × (f.fuzz_test ≡ o.fuzz_test)

  complete_finding-IsNamed :
      (now : ℕ) (dir : Bytes) (f : Finding)
      → Ensures
          (λ g. IsNamed g × (g.details ≡ f.details))
          (λ e. Unit)
          (complete_finding o w now dir f)
  unfolding complete_finding copy_input apply_copy save_finding apply_save
  complete_finding-IsNamed now dir f = ground arith

  -- From one state of the handler to another: named findings stay named, the findings with the
  -- details `ds` are added, and the metrics are `last` and `first`.
  IsAdded : Handler → List Bytes → Option FuzzingMetric → Option FuzzingMetric → Handler → Type 0
  IsAdded h ds last first g =
      (All IsNamed h.findings → All IsNamed g.findings)
      × ((map (λ f. f.details) g.findings ≡ map (λ f. f.details) h.findings ++ ds)
          × ((g.last_metrics ≡ last) × (g.first_metrics ≡ first)))

  IsAdding :
      Handler
      → List Bytes
      → Option FuzzingMetric
      → Option FuzzingMetric
      → Result HandleError Handler
      → Type 0
  IsAdding h ds last first m = Ensures (IsAdded h ds last first) (λ e. Unit) m

  note_instruction-last : (h : Handler) → (note_instruction h).last_metrics ≡ h.last_metrics
  note_instruction-last h = ground arith

  note_instruction-first : (h : Handler) → (note_instruction h).first_metrics ≡ h.first_metrics
  note_instruction-first h = ground arith

  map-last :
      (fs : List Finding) (f : Finding)
      → map (λ f. f.details) (fs ++ (f ∷ [])) ≡ map (λ f. f.details) fs ++ (f.details ∷ [])
  map-last [] f = refl
  map-last (g ∷ fs) f = ap (λ l. g.details ∷ l) (map-last fs f)

  note_finding-IsAdding :
      (now : ℕ) (f : Option Finding) (h : Handler)
      → IsAdding h
          (map (λ f. f.details) (listed f))
          h.last_metrics
          h.first_metrics
          (note_finding o w now f h)
  unfolding note_finding IsAdding IsAdded
  note_finding-IsAdding now none h = ((λ k. k), (sym (append-nil _), (refl, refl)))
  note_finding-IsAdding now (some f) h =
      Ensures-bind (λ g. IsNamed g × (g.details ≡ f.details))
        (IsAdded h (f.details ∷ []) h.last_metrics h.first_metrics) (λ e. Unit)
        (complete_finding o w now h.managed_seed_corpus_dir f) _
        (complete_finding-IsNamed now h.managed_seed_corpus_dir f)
        (λ g k. (
          (λ all. All-append IsNamed h.findings (g ∷ []) all (k.0, tt)),
          (
            map-last h.findings g ∙ ap (λ d. map (λ f. f.details) h.findings ++ (d ∷ [])) k.1,
            (note_instruction-last h, note_instruction-first h),
          ),
        ))

  write_json-IsAdding :
      (h g : Handler) (s : Option Bytes) (ds : List Bytes) (last first : Option FuzzingMetric)
      → IsAdded h ds last first g
      → IsAdding h ds last first (write_json s g)
  unfolding write_json IsAdding IsAdded
  write_json-IsAdding h g none ds last first k = tt
  write_json-IsAdding h g (some s) ds last first k = k

  -- The step from a state with the same findings
  IsAdding-from :
      (h k : Handler) (ds : List Bytes) (last first : Option FuzzingMetric)
      (m : Result HandleError Handler)
      → k.findings ≡ h.findings
      → k.last_metrics ≡ last
      → k.first_metrics ≡ first
      → IsAdding k ds k.last_metrics k.first_metrics m
      → IsAdding h ds last first m
  unfolding IsAdding IsAdded
  IsAdding-from h k ds last first (ok g) e l f a = (
    (λ all. a.0 (subst (All IsNamed) (sym e) all)),
    (a.1.0 ∙ ap (λ fs. map (λ f. f.details) fs ++ ds) e, (a.1.1.0 ∙ l, a.1.1.1 ∙ f)),
  )
  IsAdding-from h k ds last first (err x) e l f a = tt

  IsAdding-if :
      (b : Bool) (h : Handler) (ds es : List Bytes) (l l' f f' : Option FuzzingMetric)
      (m n : Result HandleError Handler)
      → IsAdding h ds l f m
      → IsAdding h es l' f' n
      → IsAdding h
          (if b then ds else es)
          (if b then l else l')
          (if b then f else f')
          (if b then m else n)
  IsAdding-if true h ds es l l' f f' m n p q = p
  IsAdding-if false h ds es l l' f f' m n p q = q

  set_corpus-IsAdding :
      (r : Report) (h : Handler)
      → IsAdding h [] h.last_metrics h.first_metrics (ok (set_corpus r h))
  unfolding set_corpus IsAdding IsAdded
  set_corpus-IsAdding r h = ((λ k. k), (sym (append-nil _), (refl, refl)))

  abbrev prepared : Report → Handler → Handler
  prepared r h = note_metric r.metric (note_init_finished r (note_init_started r h))

  prepared-findings : (r : Report) (h : Handler) → (prepared r h).findings ≡ h.findings
  unfolding note_metric note_init_finished note_init_started
  prepared-findings r h = ground arith

  prepared-last :
      (r : Report) (h : Handler) → (prepared r h).last_metrics ≡ or_last r.metric h.last_metrics
  unfolding note_metric note_init_finished note_init_started
  prepared-last r h = ground arith

  prepared-first :
      (r : Report) (h : Handler) → (prepared r h).first_metrics ≡ or_last h.first_metrics r.metric
  unfolding note_metric note_init_finished note_init_started
  prepared-first r h = ground arith

  IsAdding-write :
      (h : Handler) (ds : List Bytes) (last first : Option FuzzingMetric)
      (m : Result HandleError Handler) (json : Handler → Option Bytes) (b : Bool)
      → IsAdding h ds last first m
      → IsAdding h ds last first
          (m >>= λ g. write_json (json g) (if b then emit printer_cleared g else g))
  unfolding IsAdding IsAdded
  IsAdding-write h ds last first (ok g) json true k =
      write_json-IsAdding h (emit printer_cleared g) (json g) ds last first k
  IsAdding-write h ds last first (ok g) json false k =
      write_json-IsAdding h g (json g) ds last first k
  IsAdding-write h ds last first (err e) json b k = tt

  handle-IsAdding :
      (now : ℕ) (r : Report) (h : Handler)
      → IsAdding h
          (taken r)
          (next_last r h.last_metrics)
          (next_first r h.first_metrics)
          (handle o w now r h)
  unfolding handle taken next_last next_first
  handle-IsAdding now r h =
      IsAdding-if (is_corpus_report r) h [] _ h.last_metrics _ h.first_metrics _ _ _
        (set_corpus-IsAdding r h)
        (IsAdding-write h _ _ _ (note_finding o w now r.finding (prepared r h)) _
          (o.json_output && o.using_updating_printer)
          (IsAdding-from h (prepared r h) _ _ _ _ (prepared-findings r h) (prepared-last r h)
            (prepared-first r h) (note_finding-IsAdding now r.finding (prepared r h))))

  IsAdding-step :
      (h g : Handler) (ds es : List Bytes) (l f l' f' : Option FuzzingMetric)
      (m : Result HandleError Handler)
      → IsAdded h ds l f g
      → IsAdding g es l' f' m
      → IsAdding h (ds ++ es) l' f' m
  unfolding IsAdding IsAdded
  IsAdding-step h g ds es l f l' f' (ok k) p q =
      ((λ all. q.0 (p.0 all)), (q.1.0 ∙ ap (λ t. t ++ es) p.1.0 ∙ append_assoc _ ds es, q.1.1))
  IsAdding-step h g ds es l f l' f' (err e) p q = tt

  IsAdding-bind :
      (h : Handler) (r : Report) (rs : List Report) (m : Result HandleError Handler)
      (next : Handler → Result HandleError Handler)
      → IsAdding h (taken r) (next_last r h.last_metrics) (next_first r h.first_metrics) m
      → ((g : Handler)
          → IsAdding g
              (taken_all rs)
              (last_all rs g.last_metrics)
              (first_all rs g.first_metrics)
              (next g))
      → IsAdding h
          (taken_all (r ∷ rs))
          (last_all (r ∷ rs) h.last_metrics)
          (first_all (r ∷ rs) h.first_metrics)
          (m >>= next)
  unfolding taken_all last_all first_all IsAdding IsAdded
  IsAdding-bind h r rs (ok g) next p q =
      subst2 (λ l f. IsAdding h (taken r ++ taken_all rs) (last_all rs l) (first_all rs f) (next g))
        p.1.1.0 p.1.1.1
        (IsAdding-step h g (taken r) (taken_all rs) (next_last r h.last_metrics)
          (next_first r h.first_metrics) (last_all rs g.last_metrics) (first_all rs g.first_metrics)
          (next g) p (q g))
  IsAdding-bind h r rs (err e) next p q = tt

  handle_all-IsAdding :
      (clock : ℕ → ℕ) (n : ℕ) (rs : List Report) (h : Handler)
      → IsAdding h
          (taken_all rs)
          (last_all rs h.last_metrics)
          (first_all rs h.first_metrics)
          (handle_all o w clock n rs h)
  unfolding handle_all taken_all last_all first_all IsAdding IsAdded
  handle_all-IsAdding clock n [] h = ((λ k. k), (sym (append-nil _), (refl, refl)))
  handle_all-IsAdding clock n (r ∷ rs) h =
      IsAdding-bind h r rs (handle o w (clock n) r h) (handle_all o w clock (suc n) rs)
        (handle-IsAdding (clock n) r h) (handle_all-IsAdding clock (suc n) rs)

-- When all reports of a run have been handled without an error, from a state whose findings are
-- named, every finding of the handler has the name of its stack trace and input and the fuzz test of
-- the run; their details are those of the findings before and of the reports, in order; and the last
-- and the first metrics are those of the reports, where there are any. Reports that name a corpus
-- count for nothing.
pub handle_all_lem :
    (o : HandlerOptions) (w : Services) (clock : ℕ → ℕ) (rs : List Report) (h g : Handler)
    → All (IsNamed o w) h.findings
    → handle_all o w clock 0 rs h ≡ ok g
    → All (IsNamed o w) g.findings
      × ((map (λ f. f.details) g.findings ≡ map (λ f. f.details) h.findings ++ taken_all rs)
          × ((g.last_metrics ≡ last_all rs h.last_metrics)
              × (g.first_metrics ≡ first_all rs h.first_metrics)))
unfolding IsAdding IsAdded
handle_all_lem o w clock rs h g named e = (added.0 named, added.1)
  where
    added :
        IsAdded o w h (taken_all rs) (last_all rs h.last_metrics) (first_all rs h.first_metrics) g
    added =
        Ensures-ok
          (IsAdded o w h (taken_all rs) (last_all rs h.last_metrics) (first_all rs h.first_metrics))
          (λ e. Unit) (handle_all-IsAdding o w clock 0 rs h) e
