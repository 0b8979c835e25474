-- ===== src/Coverage/RoundTrip/Lines.antt =====
-- The parser on one written line.
use Prim.Native.String.{String}
use cifuzz.Base.{
  ◌≡◌, refl, sym, ap, ◌∙◌, true, false, none, [], ◌∷◌, ◌++◌, arith, if◌then◌else◌, inl, inr,
  Bool-cases,
}
use cifuzz.Base.Int.{ℤ, pos, negsuc, IsInt64, int_eq}
use cifuzz.Base.Result.{Result, ok, bind_ok}
use cifuzz.Text.{Bytes, codes, bytes_eq, bytes_eq_iff, cut, split, has_byte}
use cifuzz.Text.Split.{Free, split-Free_self, split-append}
use cifuzz.Text.Decimal.{itoa, atoi, atoi-itoa, Free-itoa}
use cifuzz.Coverage.{Function, FunctionExecution, Line, Branch, Overview}
use cifuzz.Coverage.Lcov.{LcovError, LcovState, update_current, parse_int, parse_brda, parse_line}
use cifuzz.Coverage.Write.{fn_line, fnda_line, da_line, brda_line}

parse_int-itoa : (line : Bytes) (z : ℤ) → IsInt64 z → parse_int line (itoa z) ≡ ok z
unfolding parse_int
parse_int-itoa line z h = ground (arith, atoi-itoa z h)

-- A number, a comma and the rest of the values.
split-itoa :
    (z : ℤ) (rest : Bytes) → split b',' (itoa z ++ (b',' ∷ rest)) ≡ itoa z ∷ split b',' rest
split-itoa z rest = split-append b',' (itoa z) rest (Free-itoa b',' z (inl (omega arith)))

split-itoa-Free :
    (z : ℤ) (rest : Bytes)
    → Free b',' rest
    → split b',' (itoa z ++ (b',' ∷ rest)) ≡ itoa z ∷ rest ∷ []
split-itoa-Free z rest h =
    split-itoa z rest ∙ ap (λ parts. itoa z ∷ parts) (split-Free_self b',' rest h)

Free-itoa_comma : (z : ℤ) → Free b',' (itoa z)
Free-itoa_comma z = Free-itoa b',' z (inl (omega arith))

pub parse_line-fn_line :
    (f : Function) (s : LcovState)
    → Free b',' f.name
    → IsInt64 f.line
    → parse_line (fn_line f) s
      ≡ ok (
          update_current s (record s.current {
            function_information = s.current.function_information ++ (f ∷ []);
          }))
unfolding parse_line fn_line cut bytes_eq
parse_line-fn_line f s free int =
    ground (arith, split-itoa-Free f.line f.name free, atoi-itoa f.line int)

pub parse_line-fnda_line :
    (f : FunctionExecution) (s : LcovState)
    → Free b',' f.name
    → IsInt64 f.executions
    → parse_line (fnda_line f) s
      ≡ ok (
          update_current s
            (record s.current { function_executions = s.current.function_executions ++ (f ∷ []) }))
unfolding parse_line fnda_line cut bytes_eq
parse_line-fnda_line f s free int =
    ground (arith, split-itoa-Free f.executions f.name free, atoi-itoa f.executions int)

pub parse_line-da_line :
    (l : Line) (s : LcovState)
    → IsInt64 l.number
    → IsInt64 l.executions
    → parse_line (da_line l) s
      ≡ ok (
          update_current s
            (record s.current { line_information = s.current.line_information ++ (l ∷ []) }))
unfolding parse_line da_line cut bytes_eq
parse_line-da_line l s number executions = ground (
  arith,
  split-itoa-Free l.number (itoa l.executions) (Free-itoa_comma l.executions),
  atoi-itoa l.number number,
  atoi-itoa l.executions executions,
)

taken : Branch → Bytes
taken b = if int_eq b.executions (pos 0) then codes "-" else itoa b.executions

split-brda :
    (b : Branch)
    → split b',' (itoa b.line ++ (codes ",0," ++ (itoa b.number ++ (b',' ∷ taken b))))
      ≡ itoa b.line ∷ codes "0" ∷ itoa b.number ∷ taken b ∷ []
split-brda b =
    split-itoa b.line (b'0' ∷ b',' ∷ (itoa b.number ++ (b',' ∷ taken b)))
    ∙ ap (λ parts. itoa b.line ∷ parts)
        (split-append b',' (codes "0") (itoa b.number ++ (b',' ∷ taken b)) (unfold has_byte in refl)
          ∙ ap (λ parts. codes "0" ∷ parts) (split-itoa-Free b.number (taken b) free))
  where
    free : Free b',' (taken b)
    free = unfold taken has_byte in ground (arith, Free-itoa_comma b.executions)

-- No number is written as "-".
itoa-ne-dash : (z : ℤ) → IsInt64 z → bytes_eq (itoa z) (codes "-") ≡ false
itoa-ne-dash z int = elim (Bool-cases (bytes_eq (itoa z) (codes "-"))) [
  | inl same ↦
      let unread : atoi (codes "-") ≡ none = unfold atoi in refl in
      cc (atoi-itoa z int, ap atoi ((bytes_eq_iff (itoa z) (codes "-")).0 same), unread)
  | inr other ↦ other
]

int_eq-zero : (z : ℤ) → int_eq z (pos 0) ≡ true → z ≡ pos 0
int_eq-zero (pos n) h = ground arith
int_eq-zero (negsuc n) h = cc

-- What is read for "-" or a number is what was written.
read_taken :
    (line : Bytes) (b : Branch)
    → IsInt64 b.executions
    → (if bytes_eq (taken b) (codes "-") then ok (pos 0) else parse_int line (taken b))
      ≡ ok b.executions
unfolding taken
read_taken line b int = elim (Bool-cases (int_eq b.executions (pos 0))) [
  | inl none_taken ↦
      rw none_taken (unfold bytes_eq in ap ok (sym (int_eq-zero b.executions none_taken)))
  | inr some_taken ↦
      rw (some_taken, itoa-ne-dash b.executions int) (parse_int-itoa line b.executions int)
]

parse_int_zero : (line : Bytes) → parse_int line (codes "0") ≡ ok (pos 0)
unfolding parse_int atoi
parse_int_zero line = refl

parse_brda_lem :
    (line : Bytes) (b : Branch) (s : LcovState)
    → b.block ≡ pos 0
    → IsInt64 b.line
    → IsInt64 b.number
    → IsInt64 b.executions
    → parse_brda line (itoa b.line ∷ codes "0" ∷ itoa b.number ∷ taken b ∷ []) s
      ≡ ok (
          update_current s
            (record s.current { branch_information = s.current.branch_information ++ (b ∷ []) }))
unfolding parse_brda
parse_brda_lem line b s block l n e = bind_ok _ (parse_int-itoa line b.line l) (
    bind_ok _ (parse_int_zero line) (
      bind_ok _ (parse_int-itoa line b.number n) (
        bind_ok _ (read_taken line b e) (
          ap
            (λ z. ok (
              update_current s (record s.current {
                branch_information =
                    s.current.branch_information
                    ++ (record {
                      line = b.line;
                      block = z;
                      number = b.number;
                      executions = b.executions;
                    }
                        ∷ []);
              })))
            (sym block)))))

pub parse_line-brda_line :
    (b : Branch) (s : LcovState)
    → b.block ≡ pos 0
    → IsInt64 b.line
    → IsInt64 b.number
    → IsInt64 b.executions
    → parse_line (brda_line b) s
      ≡ ok (
          update_current s
            (record s.current { branch_information = s.current.branch_information ++ (b ∷ []) }))
unfolding parse_line brda_line cut bytes_eq taken
parse_line-brda_line b s block line number executions =
    ap (λ parts. parse_brda (brda_line b) parts s) (split-brda b)
    ∙ parse_brda_lem (brda_line b) b s block line number executions

-- The lines with a count set one field of the overview.
module _ (z : ℤ) (s : LcovState) (int : IsInt64 z) where
  abbrev pub count_line : String → Bytes
  count_line prefix = codes prefix ++ itoa z

  abbrev pub set_overview : (Overview → Overview) → Result LcovError LcovState
  set_overview f = ok (update_current s (record s.current { overview = f s.current.overview }))

  pub parse_line-counts :
      (parse_line (count_line "FNF:") s ≡ set_overview (λ o. record o { functions_found = z }))
      × (parse_line (count_line "FNH:") s ≡ set_overview (λ o. record o { functions_hit = z }))
      × (parse_line (count_line "LF:") s ≡ set_overview (λ o. record o { lines_found = z }))
      × (parse_line (count_line "LH:") s ≡ set_overview (λ o. record o { lines_hit = z }))
      × (parse_line (count_line "BRF:") s ≡ set_overview (λ o. record o { branches_found = z }))
      × (parse_line (count_line "BRH:") s ≡ set_overview (λ o. record o { branches_hit = z }))
  unfolding parse_line cut bytes_eq
  parse_line-counts =
      let read = atoi-itoa z int in
      (
        ground (arith, read),
        ground (arith, read),
        ground (arith, read),
        ground (arith, read),
        ground (arith, read),
        ground (arith, read),
      )
