-- ===== src/Text/Scanner.antt =====
-- `bufio.Scanner` with its default split function and buffer: the lines of an input, without their
-- line ends, up to the first line that does not fit into the buffer.
use cifuzz.Base.{
  ℕ, ◌*◌, sym, ◌∙◌, ap, All, ◌<◌, ◌≡◌, ◌≢◌, refl, Bool, true, false, List, [], ◌∷◌, ◌++◌,
  append_assoc, arith, ltb, if◌then◌else◌, length, ◌==◌,
}
use mathlib.Core.Path.{ap₂}
use cifuzz.Text.{Bytes, split}
use cifuzz.Text.Split.{Free, split-append, split-ne-nil}

-- A line and its line end must be shorter than this buffer, or end the input in it.
abbrev pub max_scan_token_size : ℕ
max_scan_token_size = 64 * 1024

-- A carriage return at the end of a line is dropped.
unfoldable pub drop_cr : Bytes → Bytes
drop_cr [] = []
drop_cr (c ∷ []) = if c == 13 then [] else c ∷ []
drop_cr (c ∷ d ∷ s) = c ∷ drop_cr (d ∷ s)

-- The lines that `Scan` returns, and whether `Err` reports a line that is too long then.
pub record Scanned : Type 0 where
  pub lines : List Bytes
  pub too_long : Bool

abbrev pub add_line : Bytes → Scanned → Scanned
add_line line rest = record { lines = drop_cr line ∷ rest.lines; too_long = rest.too_long }

-- The last part of the input is a line only if it is not empty.
unfoldable pub scan_parts : List Bytes → Scanned
unfolding drop_cr
scan_parts [] = record { lines = []; too_long = false }
scan_parts ([] ∷ []) = record { lines = []; too_long = false }
scan_parts ((c ∷ part) ∷ []) =
    if ltb (length (c ∷ part)) max_scan_token_size
    then record { lines = drop_cr (c ∷ part) ∷ []; too_long = false }
    else record { lines = []; too_long = true }
scan_parts (part ∷ next ∷ parts) =
    let rest = scan_parts (next ∷ parts) in
    if ltb (length part) max_scan_token_size
    then add_line part rest
    else record { lines = []; too_long = true }

unfoldable pub scan : Bytes → Scanned
unfolding scan_parts
scan input = scan_parts (split b'\n' input)

-- Text that is written as one line is read as one line.
abbrev pub IsLine : Bytes → Type 0
IsLine line = Free b'\n' line × (drop_cr line ≡ line) × (length line < max_scan_token_size)

scan_parts-cons :
    (part : Bytes) (parts : List Bytes)
    → parts ≢ []
    → length part < max_scan_token_size
    → scan_parts (part ∷ parts) ≡ add_line part (scan_parts parts)
unfolding scan_parts
scan_parts-cons part [] ne h = absurd (ne refl)
scan_parts-cons part (p ∷ ps) ne h = ground arith

-- Lines, each with its newline
abbrev pub unlines : List Bytes → Bytes
unlines [] = []
unlines (line ∷ lines) = line ++ (b'\n' ∷ unlines lines)

pub unlines-append : (xs ys : List Bytes) → unlines (xs ++ ys) ≡ unlines xs ++ unlines ys
unlines-append [] ys = refl
unlines-append (x ∷ xs) ys =
    ap (λ r. x ++ (b'\n' ∷ r)) (unlines-append xs ys)
    ∙ sym (append_assoc x (b'\n' ∷ unlines xs) (unlines ys))

-- Scanning what was written line by line returns the lines.
pub scan-unlines :
    (lines : List Bytes)
    → All IsLine lines
    → scan (unlines lines) ≡ record { lines = lines; too_long = false }
unfolding scan
scan-unlines [] h = unfold split scan_parts in refl
scan-unlines (line ∷ lines) h =
    ap scan_parts (split-append b'\n' line (unlines lines) h.0.0)
    ∙ scan_parts-cons line (split b'\n' (unlines lines)) (split-ne-nil b'\n' (unlines lines)) h.0.2
    ∙ ap₂ (λ l (r : Scanned). record { lines = l ∷ r.lines; too_long = r.too_long }) h.0.1
        (scan-unlines lines h.1)
