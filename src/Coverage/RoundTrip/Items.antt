-- ===== src/Coverage/RoundTrip/Items.antt =====
-- The parser on the written lines of one kind.
use cifuzz.Base.{◌≡◌, refl, sym, ap, ◌∙◌, List, [], ◌∷◌, ◌++◌, map, append_assoc, append-nil, All}
use cifuzz.Base.Int.{pos, IsInt64}
use cifuzz.Base.Result.{ok, bind_ok}
use cifuzz.Text.{Bytes}
use cifuzz.Text.Split.{Free}
use cifuzz.Coverage.{Function, FunctionExecution, Line, Branch}
use cifuzz.Coverage.Lcov.{LcovState, update_current, parse_line, parse_lines}
use cifuzz.Coverage.Write.{fn_line, fnda_line, da_line, brda_line}
use cifuzz.Coverage.RoundTrip.Lines.{
  parse_line-fn_line, parse_line-fnda_line, parse_line-da_line, parse_line-brda_line,
}

-- The items that the format can express
abbrev pub IsFunction : Function → Type 0
IsFunction f = Free b',' f.name × IsInt64 f.line

abbrev pub IsExecution : FunctionExecution → Type 0
IsExecution f = Free b',' f.name × IsInt64 f.executions

abbrev pub IsLineCount : Line → Type 0
IsLineCount l = IsInt64 l.number × IsInt64 l.executions

abbrev pub IsBranch : Branch → Type 0
IsBranch b = (b.block ≡ pos 0) × IsInt64 b.line × IsInt64 b.number × IsInt64 b.executions

pub parse_lines-cons :
    (line : Bytes) (rest : List Bytes) (s : LcovState) {t : LcovState}
    → parse_line line s ≡ ok t
    → parse_lines (line ∷ rest) s ≡ parse_lines rest t
unfolding parse_lines
parse_lines-cons line rest s h = bind_ok (parse_lines rest) h refl

-- Lines of one kind, each of which adds its item.
module _ {A : Type 0} (write : A → Bytes) (put : List A → LcovState → LcovState) (Ok : A → Type 0)
    (put-nil : (s : LcovState) → put [] s ≡ s)
    (put-cons : (x : A) (xs : List A) (s : LcovState) → put xs (put (x ∷ []) s) ≡ put (x ∷ xs) s)
    (step : (x : A) (s : LcovState) → Ok x → parse_line (write x) s ≡ ok (put (x ∷ []) s)) where
  parse_lines-map :
      (xs : List A) (rest : List Bytes) (s : LcovState)
      → All Ok xs
      → parse_lines (map write xs ++ rest) s ≡ parse_lines rest (put xs s)
  parse_lines-map [] rest s h = ap (parse_lines rest) (sym (put-nil s))
  parse_lines-map (x ∷ xs) rest s h =
      parse_lines-cons (write x) (map write xs ++ rest) s (step x s h.0)
      ∙ parse_lines-map xs rest (put (x ∷ []) s) h.1
      ∙ ap (parse_lines rest) (put-cons x xs s)

abbrev pub put_functions : List Function → LcovState → LcovState
put_functions xs s =
    update_current s
      (record s.current { function_information = s.current.function_information ++ xs })

pub parse_lines-functions :
    (xs : List Function) (rest : List Bytes) (s : LcovState)
    → All IsFunction xs
    → parse_lines (map fn_line xs ++ rest) s ≡ parse_lines rest (put_functions xs s)
parse_lines-functions =
    parse_lines-map fn_line put_functions IsFunction
      (λ s.
        ap (λ xs. update_current s (record s.current { function_information = xs }))
          (append-nil s.current.function_information))
      (λ x xs s.
        ap (λ ys. update_current s (record s.current { function_information = ys }))
          (append_assoc s.current.function_information (x ∷ []) xs))
      (λ x s h. parse_line-fn_line x s h.0 h.1)

abbrev pub put_executions : List FunctionExecution → LcovState → LcovState
put_executions xs s =
    update_current s
      (record s.current { function_executions = s.current.function_executions ++ xs })

pub parse_lines-executions :
    (xs : List FunctionExecution) (rest : List Bytes) (s : LcovState)
    → All IsExecution xs
    → parse_lines (map fnda_line xs ++ rest) s ≡ parse_lines rest (put_executions xs s)
parse_lines-executions =
    parse_lines-map fnda_line put_executions IsExecution
      (λ s.
        ap (λ xs. update_current s (record s.current { function_executions = xs }))
          (append-nil s.current.function_executions))
      (λ x xs s.
        ap (λ ys. update_current s (record s.current { function_executions = ys }))
          (append_assoc s.current.function_executions (x ∷ []) xs))
      (λ x s h. parse_line-fnda_line x s h.0 h.1)

abbrev pub put_line_counts : List Line → LcovState → LcovState
put_line_counts xs s =
    update_current s (record s.current { line_information = s.current.line_information ++ xs })

pub parse_lines-line_counts :
    (xs : List Line) (rest : List Bytes) (s : LcovState)
    → All IsLineCount xs
    → parse_lines (map da_line xs ++ rest) s ≡ parse_lines rest (put_line_counts xs s)
parse_lines-line_counts =
    parse_lines-map da_line put_line_counts IsLineCount
      (λ s.
        ap (λ xs. update_current s (record s.current { line_information = xs }))
          (append-nil s.current.line_information))
      (λ x xs s.
        ap (λ ys. update_current s (record s.current { line_information = ys }))
          (append_assoc s.current.line_information (x ∷ []) xs))
      (λ x s h. parse_line-da_line x s h.0 h.1)

abbrev pub put_branches : List Branch → LcovState → LcovState
put_branches xs s =
    update_current s (record s.current { branch_information = s.current.branch_information ++ xs })

pub parse_lines-branches :
    (xs : List Branch) (rest : List Bytes) (s : LcovState)
    → All IsBranch xs
    → parse_lines (map brda_line xs ++ rest) s ≡ parse_lines rest (put_branches xs s)
parse_lines-branches =
    parse_lines-map brda_line put_branches IsBranch
      (λ s.
        ap (λ xs. update_current s (record s.current { branch_information = xs }))
          (append-nil s.current.branch_information))
      (λ x xs s.
        ap (λ ys. update_current s (record s.current { branch_information = ys }))
          (append_assoc s.current.branch_information (x ∷ []) xs))
      (λ x s h. parse_line-brda_line x s h.0 h.1 h.2 h.3)
