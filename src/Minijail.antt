-- ===== src/Minijail.antt =====
-- pkg/minijail/output_filter.go: the writer that drops the messages of minijail, over Go's
-- bytes.Buffer. The bytes of a buffer and its capacity are modelled: `append` to them writes into
-- the array of the buffer as long as the capacity lasts.
pub mod Writes
pub mod Bindings
pub mod BindingTexts
pub mod Jail
pub mod Enclosed
use cifuzz.Base.{
  ℕ, ◌+◌, ◌-◌, Bool, true, false, ◌&&◌, Option, none, some, List, [], ◌∷◌, ◌++◌, ◌==◌, leb, ltb,
  if◌then◌else◌, length,
}
use cifuzz.Base.Int.{ℤ, pos, negsuc}
use cifuzz.Text.{Bytes}
use cifuzz.Strings.{take, drop}
use cifuzz.Regex.{match_string}
use cifuzz.Parser.Patterns.{ignored_pattern}

-- A buffer of which nothing has been read
pub record Buffer : Type 0 where
  pub bytes : Bytes
  pub capacity : ℕ

-- `OutputFilter`; `blocks` is what the next writer has taken, a call at a time.
pub record OutputFilter : Type 0 where
  pub buf : Buffer
  pub blocks : List Bytes

-- What Go and the next writer do: the capacity of the array that a buffer of some length and capacity
-- gets to hold so many more bytes, and how much of a block is taken, and whether with an error.
pub record Platform : Type 0 where
  pub grow : ℕ → ℕ → ℕ → ℕ
  pub next_write : List Bytes → Bytes → ℕ × Bool

-- `NewOutputFilter`
abbrev pub new_output_filter : OutputFilter
new_output_filter = record { buf = record { bytes = []; capacity = 0 }; blocks = [] }

-- `Buffer.Write`
unfoldable pub buffer_write : Platform → Buffer → Bytes → Buffer
buffer_write w b p = record {
  bytes = b.bytes ++ p;
  capacity =
      if leb (length b.bytes + length p) b.capacity
      then b.capacity
      else w.grow (length b.bytes) b.capacity (length p);
}

abbrev pub cut_cons : ℕ → Bytes → Option (Bytes × Bytes) → Option (Bytes × Bytes)
cut_cons c s (some (to_print, to_store)) = some (c ∷ to_print, to_store)
cut_cons c s none = if c == 10 then some (c ∷ [], s) else none

-- The text up to its last newline, and the rest, as `LastIndexByte` cuts it
unfoldable pub cut_last : Bytes → Option (Bytes × Bytes)
cut_last [] = none
cut_last (c ∷ s) = cut_cons c s (cut_last s)

-- The first bytes of an array that held `block`, after `text` has been written to its front
unfoldable pub overwrite : Bytes → Bytes → Bytes
overwrite text block = take (length block) text ++ drop (length text) block

-- What is to be printed, after the rest has been stored: it lies in the array of the buffer if the
-- capacity was enough for both.
unfoldable pub to_print_block : Buffer → Bytes → Bytes → Bytes
unfolding overwrite
to_print_block b to_print to_store =
    let block = b.bytes ++ to_print in
    if leb (length block) b.capacity && leb (length to_store) b.capacity
    then overwrite to_store block
    else block

-- `len(p) - numBytesNotWritten`
abbrev pub write_count : ℕ → ℕ → ℕ → ℤ
write_count len_p len_block written =
    if ltb (len_p + written) len_block
    then negsuc (len_block - (len_p + written) - 1)
    else pos (len_p + written - len_block)

-- `Write` on a block, with what it returns
unfoldable pub print_block : Platform → ℕ → Bytes → OutputFilter → OutputFilter × (ℤ × Bool)
print_block w len_p block f =
    if match_string ignored_pattern block
    then (f, (pos len_p, false))
    else let r = w.next_write f.blocks block in
      (
        record f { blocks = f.blocks ++ (take r.0 block ∷ []) },
        (write_count len_p (length block) r.0, r.1),
      )

unfoldable pub write_parts :
    Platform → Bytes → Option (Bytes × Bytes) → OutputFilter → OutputFilter × (ℤ × Bool)
unfolding buffer_write to_print_block print_block
write_parts w p none f = (record f { buf = buffer_write w f.buf p }, (pos (length p), false))
write_parts w p (some (to_print, to_store)) f =
    print_block w (length p) (to_print_block f.buf to_print to_store) (record f {
      buf = buffer_write w (record { bytes = []; capacity = f.buf.capacity }) to_store;
    })

-- `Write`: the new state, and the count and error that it returns
unfoldable pub write : Platform → Bytes → OutputFilter → OutputFilter × (ℤ × Bool)
unfolding write_parts cut_last
write w p f = write_parts w p (cut_last p) f

-- A sequence of writes
unfoldable pub write_all : Platform → List Bytes → OutputFilter → OutputFilter
unfolding write
write_all w [] f = f
write_all w (p ∷ ps) f = write_all w ps (write w p f).0
