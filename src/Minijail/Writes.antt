-- ===== src/Minijail/Writes.antt =====
-- Writes of whole lines to the output filter of minijail, and of lines in pieces.
use cifuzz.Base.{◌≡◌, false, List, [], ◌∷◌, ◌++◌, if◌then◌else◌, length}
use cifuzz.Text.{Bytes, has_byte}
use cifuzz.Regex.{match_string}
use cifuzz.Parser.Patterns.{ignored_pattern}
use cifuzz.Minijail.{OutputFilter, Platform}

-- A text without a newline, or one that ends in a newline
pub data IsLineWrite : Bytes → Type 0 where
  piece : {p : Bytes} → has_byte 10 p ≡ false → IsLineWrite p
  lines : (q : Bytes) → IsLineWrite (q ++ (10 ∷ []))

-- The next writer takes everything.
abbrev pub TakesAll : Platform → Type 0
TakesAll w = (blocks : List Bytes) (b : Bytes) → w.next_write blocks b ≡ (length b, false)

-- The blocks that the writes make, of the text that is pending and theirs, and what remains
unfoldable pub blocks_of : Bytes → List Bytes → List Bytes
blocks_of pending [] = []
blocks_of pending (p ∷ ps) =
    if has_byte 10 p then (pending ++ p) ∷ blocks_of [] ps else blocks_of (pending ++ p) ps

unfoldable pub remaining : Bytes → List Bytes → Bytes
remaining pending [] = pending
remaining pending (p ∷ ps) = if has_byte 10 p then remaining [] ps else remaining (pending ++ p) ps

-- The blocks that no message of minijail begins
unfoldable pub shown : List Bytes → List Bytes
shown [] = []
shown (b ∷ bs) = let rest = shown bs in if match_string ignored_pattern b then rest else b ∷ rest

unfoldable pub concat : List Bytes → Bytes
concat [] = []
concat (b ∷ bs) = b ++ concat bs

-- What a write of `p` does to the blocks and the buffer
IsStep : OutputFilter → Bytes → OutputFilter → Type 0
IsStep f p g =
    (g.blocks ≡ f.blocks ++ shown (blocks_of f.buf.bytes (p ∷ [])))
    × (g.buf.bytes ≡ remaining f.buf.bytes (p ∷ []))

-- What the writes `ps` do to the blocks and the buffer
IsRun : OutputFilter → List Bytes → OutputFilter → Type 0
IsRun f ps g =
    (g.blocks ≡ f.blocks ++ shown (blocks_of f.buf.bytes ps))
    × (g.buf.bytes ≡ remaining f.buf.bytes ps)
