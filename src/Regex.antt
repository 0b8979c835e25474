-- ===== src/Regex.antt =====
-- Go's package `regexp`, for the syntax that the program's patterns use: the leftmost match, with
-- the choice of a backtracking search. Patterns work on bytes: in all patterns of the program a
-- repetition is over a class that holds every byte of a character outside ASCII, or none.
use cifuzz.Base.{
  ℕ, ◌-◌, Bool, true, false, not, ◌&&◌, ◌||◌, Option, none, some, List, [], ◌∷◌, ◌==◌, leb,
  if◌then◌else◌, length,
}
use Prim.Native.String.{String}
use cifuzz.Text.{Bytes, codes, bytes_eq}
use cifuzz.Strings.{take}

pub data Regex : Type 0 where
  empty : Regex
  one_of : (ℕ → Bool) → Regex
  seq : Regex → Regex → Regex
  alt : Regex → Regex → Regex
  -- `*` and `*?` over a class
  many : (ℕ → Bool) → Regex
  many_lazy : (ℕ → Bool) → Regex
  -- `(?P<name>…)`
  group : Bytes → Regex → Regex
  -- `^` and `$`
  text_start : Regex
  text_end : Regex

abbrev pub literal : Bytes → Regex
literal [] = empty
literal (c ∷ s) = seq (one_of (λ x. x == c)) (literal s)

abbrev pub text : String → Regex
text s = literal (codes s)

abbrev pub some_of : (ℕ → Bool) → Regex
some_of class = seq (one_of class) (many class)

abbrev pub some_of_lazy : (ℕ → Bool) → Regex
some_of_lazy class = seq (one_of class) (many_lazy class)

-- `?`
abbrev pub optional : Regex → Regex
optional r = alt r empty

infixr 66 ◌⨾◌
abbrev pub ◌⨾◌ : Regex → Regex → Regex
◌⨾◌ = seq

abbrev pub digit : ℕ → Bool
digit c = leb b'0' c && leb c b'9'

abbrev pub word : ℕ → Bool
word c = digit c || (leb b'a' c && leb c b'z') || (leb b'A' c && leb c b'Z') || c == b'_'

-- `\s` of Go: tab, newline, form feed, carriage return and blank
abbrev pub space : ℕ → Bool
space c = c == 9 || c == 10 || c == 12 || c == 13 || c == 32

abbrev pub non_space : ℕ → Bool
non_space c = not (space c)

-- `.`
abbrev pub any : ℕ → Bool
any c = not (c == 10)

abbrev pub Captures : Type 0
Captures = List (Bytes × Bytes)

abbrev Rest : Type 0
Rest = Bytes → Captures → Option Captures

-- The first attempt that succeeds
abbrev or_try : Option Captures → Option Captures → Option Captures
or_try (some m) o = some m
or_try none o = o

match_many : (ℕ → Bool) → Bytes → Captures → Rest → Option Captures
match_many class [] m k = k [] m
match_many class (c ∷ s) m k = elim (class c) [
  | true ↦ elim (match_many class s m k) [ some r ↦ some r | none ↦ k (c ∷ s) m ]
  | false ↦ k (c ∷ s) m
]

match_many_lazy : (ℕ → Bool) → Bytes → Captures → Rest → Option Captures
match_many_lazy class [] m k = k [] m
match_many_lazy class (c ∷ s) m k = elim (k (c ∷ s) m) [
  | some r ↦ some r
  | none ↦ elim (class c) [ true ↦ match_many_lazy class s m k | false ↦ none ]
]

abbrev match_one : (ℕ → Bool) → Bytes → Captures → Rest → Option Captures
match_one class [] m k = none
match_one class (c ∷ s) m k = elim (class c) [ true ↦ k s m | false ↦ none ]

-- A match at the front of the text `s`, which is the end of a text of `n` bytes.
match_at : ℕ → Regex → Bytes → Captures → Rest → Option Captures
unfolding match_many match_many_lazy
match_at n empty s m k = k s m
match_at n (one_of class) s m k = match_one class s m k
match_at n (seq a b) s m k = match_at n a s m (λ s' m'. match_at n b s' m' k)
match_at n (alt a b) s m k = elim (match_at n a s m k) [
  | some r ↦ some r
  | none ↦ match_at n b s m k
]
match_at n (many class) s m k = match_many class s m k
match_at n (many_lazy class) s m k = match_many_lazy class s m k
match_at n (group name a) s m k =
    match_at n a s m (λ s' m'. k s' ((name, take (length s - length s') s) ∷ m'))
match_at n text_start s m k = elim (length s == n) [ true ↦ k s m | false ↦ none ]
match_at n text_end [] m k = k [] m
match_at n text_end (c ∷ s) m k = none

find_from : ℕ → Regex → Bytes → Option Captures
unfolding match_at
find_from n r [] = match_at n r [] [] (λ s m. some m)
find_from n r (c ∷ s) = elim (match_at n r (c ∷ s) [] (λ s' m. some m)) [
  | some m ↦ some m
  | none ↦ find_from n r s
]

-- `FindStringSubmatch` and the map that `FindNamedGroupsMatch` makes of it
unfoldable pub find_named_groups_match : Regex → Bytes → Option Captures
unfolding find_from
find_named_groups_match r s = find_from (length s) r s

-- `MatchString`
unfoldable pub match_string : Regex → Bytes → Bool
unfolding find_named_groups_match
match_string r s = elim (find_named_groups_match r s) [ none ↦ false | some m ↦ true ]

-- `result[name]`: a group that took no part in the match reads as "".
unfoldable pub group_text : Bytes → Captures → Bytes
unfolding bytes_eq
group_text name [] = []
group_text name ((n, t) ∷ m) = if bytes_eq n name then t else group_text name m
