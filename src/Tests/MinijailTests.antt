-- ===== src/Tests/MinijailTests.antt =====
-- The output filter of minijail on concrete writes.
use cifuzz.Base.{◌+◌, ◌≡◌, refl, false, List, [], ◌∷◌, ◌++◌, length}
use cifuzz.Text.{Bytes, codes, has_byte}
use cifuzz.Regex.{match_string}
use cifuzz.Minijail.{Platform, new_output_filter, write_all}
use cifuzz.Minijail.Writes.{blocks_of, shown}

-- A next writer that takes everything, and arrays of 8 bytes more than are needed
abbrev platform : Platform
platform = record {
  grow = λ len capacity n. len + n + 8;
  next_write = λ blocks b. (length b, false);
}

abbrev newline : Bytes
newline = 10 ∷ []

abbrev message : Bytes
message = codes "libminijail[7]: child process 9 exited with status 1"

abbrev writes : List Bytes
writes = codes "one " ∷ (codes "line" ++ newline) ∷ (message ++ newline) ∷ codes "end" ∷ []

-- The message is dropped, and the last bytes wait for their newline.
blocks_shown : shown (blocks_of [] writes) ≡ (codes "one line" ++ newline) ∷ []
unfolding shown blocks_of match_string has_byte
blocks_shown = refl

-- A write of the end of a line and more: the bytes that are stored overwrite those that are printed,
-- which lie in the same array.
overwritten :
    (write_all platform
      ((codes "abc" ++ newline ++ codes "xy") ∷ (newline ++ codes "12") ∷ [])
      new_output_filter).blocks
    ≡ (codes "abc" ++ newline) ∷ (codes "12" ++ newline) ∷ []
unfolding write_all match_string
overwritten = refl

-- A block that a message begins is dropped with the lines behind the message.
dropped :
    (write_all platform
      ((message ++ newline ++ codes "ERROR" ++ newline) ∷ [])
      new_output_filter).blocks
    ≡ []
unfolding write_all match_string
dropped = refl
