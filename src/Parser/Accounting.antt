-- ===== src/Parser/Accounting.antt =====
-- Which findings the parser of libfuzzer.go hears of, and which it reports.
use cifuzz.Base.{
  ℕ, ◌+◌, ◌≡◌, refl, sym, ap, ◌∙◌, Bool, true, not, ◌&&◌, Option, none, some, List, [], ◌∷◌, ◌++◌,
  arith, append_assoc, if◌then◌else◌,
}
use cifuzz.Base.Result.{Result, ok, err}
use cifuzz.Text.{Bytes, bytes_eq}
use cifuzz.Parser.Finding.{Finding}
use cifuzz.Parser.Report.{Report}
use cifuzz.Parser.Metric.{Stats, parse_stats}
use cifuzz.Parser.State.{Options, World, State, ParseError, Step}
use cifuzz.Parser.Startup.{parse_startup}
use cifuzz.Parser.Machine.{accepted_finding, parse_line, clean_line}

-- The details of the findings that have some, in order
abbrev pub titles : List Finding → List Bytes
titles [] = []
titles (f ∷ fs) = let rest = titles fs in if bytes_eq f.details [] then rest else f.details ∷ rest

pub titles-append : (fs gs : List Finding) → titles (fs ++ gs) ≡ titles fs ++ titles gs
titles-append [] gs = refl
titles-append (f ∷ fs) gs = ground (arith, titles-append fs gs)

abbrev pub listed : Option Finding → List Finding
listed none = []
listed (some f) = f ∷ []

-- The findings of the reports, in order
abbrev pub sent_findings : List Report → List Finding
sent_findings [] = []
sent_findings (r ∷ rs) = listed r.finding ++ sent_findings rs

pub sent_findings-append :
    (rs ts : List Report) → sent_findings (rs ++ ts) ≡ sent_findings rs ++ sent_findings ts
sent_findings-append [] ts = refl
sent_findings-append (r ∷ rs) ts =
    ap (λ fs. listed r.finding ++ fs) (sent_findings-append rs ts)
    ∙ sym (append_assoc (listed r.finding) _ _)

-- What has been reported, and what is pending
unfoldable pub ledger : List Report → Option Finding → List Bytes
ledger sent pending = titles (sent_findings sent) ++ titles (listed pending)

-- Whether the part of `parseLine` before the initialization deals with the line
abbrev pub is_done : Result ParseError (State × Bool) → Bool
is_done (ok (s, done)) = done
is_done (err e) = true

abbrev pub announced : Option Stats → Option Finding → List Finding
announced (some st) f = []
announced none f = listed f

-- The finding that a line announces: no line of the startup and no metrics line does.
unfoldable pub heard_line : Options → World → Bytes → State → List Finding
heard_line o w line s =
    let finding = announced (parse_stats line) (accepted_finding o line s.pending_finding) in
    if not s.init_started && not s.init_finished
    then if is_done (parse_startup o w line s) then [] else finding
    else finding

abbrev pub behind : Step → (State → List Finding) → List Finding
behind (ok s) next = next s
behind (err e) next = []

-- The findings that the lines announce, each in the state that the lines before it have left
unfoldable pub heard : Options → World → (ℕ → ℕ) → ℕ → List Bytes → State → List Finding
heard o w clock n [] s = []
heard o w clock n (line ∷ lines) s =
    heard_line o w (clean_line o w line) s
    ++ behind (parse_line o w (clock n) line s) (λ s'. heard o w clock (n + 1) lines s')
