-- ===== src/Text/Decimal.antt =====
-- Decimal numbers: `%d` of Go's package `fmt`, and `strconv.Atoi`.
use cifuzz.Base.{
  ℕ, zero, suc, ◌+◌, ◌-◌, ◌*◌, ◌/◌, ◌%◌, ◌<◌, ◌≤◌, ◌≡◌, ◌≢◌, refl, sym, ap, ◌∙◌, ◌&&◌, Option, none,
  some, [], ◌∷◌, ◌++◌, append_assoc, append-nil, arith, ◌==◌, ltb, leb, if◌then◌else◌, Bool-cases,
  inl, inr, ◌⊎◌,
}
use mathlib.Core.List.{concat-ne-nil}
use cifuzz.Base.Int.{ℤ, pos, negsuc, IsInt64, int_min_abs}
use cifuzz.Text.{Bytes, has_byte}
use cifuzz.Text.Split.{Free, has_byte-append}

-- Each round takes a digit off, so a fuel above the number is enough.
unfoldable pub digits_of : ℕ → ℕ → Bytes
digits_of zero n = []
digits_of (suc fuel) n =
    let front = digits_of fuel (n / 10) in
    if ltb n 10 then (b'0' + n) ∷ [] else front ++ ((b'0' + n % 10) ∷ [])

-- `%d` of a number that is not negative
unfoldable pub decimal : ℕ → Bytes
unfolding digits_of
decimal n = digits_of (suc n) n

-- `%d`
unfoldable pub itoa : ℤ → Bytes
unfolding decimal
itoa (pos n) = decimal n
itoa (negsuc n) = b'-' ∷ decimal (suc n)

unfoldable pub digits_value : ℕ → Bytes → Option ℕ
digits_value acc [] = some acc
digits_value acc (c ∷ s) =
    let rest = digits_value (acc * 10 + (c - b'0')) s in
    if leb b'0' c && leb c b'9' then rest else none

-- A decimal number without a sign; the empty text is none.
unfoldable pub number : Bytes → Option ℕ
unfolding digits_value
number [] = none
number (c ∷ s) = digits_value 0 (c ∷ s)

abbrev pub positive_int : Option ℕ → Option ℤ
positive_int none = none
positive_int (some n) = if ltb n int_min_abs then some (pos n) else none

abbrev pub negative_int : Option ℕ → Option ℤ
negative_int none = none
negative_int (some zero) = some (pos 0)
negative_int (some (suc n)) = if ltb n int_min_abs then some (negsuc n) else none

-- `strconv.Atoi`; `none` is its error, for the syntax or for the range of `int`
unfoldable pub atoi : Bytes → Option ℤ
unfolding number
atoi [] = none
atoi (c ∷ s) =
    if c == b'-'
    then negative_int (number s)
    else if c == b'+'
    then positive_int (number s)
    else positive_int (number (c ∷ s))

digits_value-digit :
    (acc d : ℕ) (s : Bytes)
    → d < 10
    → digits_value acc ((b'0' + d) ∷ s) ≡ digits_value (acc * 10 + d) s
unfolding digits_value
digits_value-digit acc d s h =
    let value : acc * 10 + (b'0' + d - b'0') ≡ acc * 10 + d = omega arith in
    ground (arith, ap (λ v. digits_value v s) value)

-- Reading the digits of a number, with more text behind them, reads the number first.
digits_value-digits_of :
    (fuel n : ℕ) (s : Bytes) → n < fuel → digits_value 0 (digits_of fuel n ++ s) ≡ digits_value n s
unfolding digits_of
digits_value-digits_of zero n s h = absurd (omega arith)
digits_value-digits_of (suc fuel) n s h = elim (Bool-cases (ltb n 10)) [
  | inl small ↦
      let below : n < 10 = ground arith in
      let value : 0 * 10 + n ≡ n = omega arith in
      rw small (digits_value-digit 0 n s below ∙ ap (λ v. digits_value v s) value)
  | inr large ↦
      let above : 10 ≤ n = ground arith in
      let value : n / 10 * 10 + n % 10 ≡ n = omega arith in
      rw (large, append_assoc)
        (digits_value-digits_of fuel (n / 10) ((b'0' + n % 10) ∷ s) (omega arith)
          ∙ digits_value-digit (n / 10) (n % 10) s (omega arith)
          ∙ ap (λ v. digits_value v s) value)
]

-- A number has digits only.
Free-digits_of : (c fuel n : ℕ) → (c < b'0') ⊎ (b'9' < c) → Free c (digits_of fuel n)
unfolding digits_of has_byte
Free-digits_of c zero n h = refl
Free-digits_of c (suc fuel) n h = ground (
  arith,
  Free-digits_of c fuel (n / 10) h,
  has_byte-append c (digits_of fuel (n / 10)) ((b'0' + n % 10) ∷ []),
)

digits_of-ne-nil : (fuel n : ℕ) → n < fuel → digits_of fuel n ≢ []
unfolding digits_of
digits_of-ne-nil zero n h e = omega arith
digits_of-ne-nil (suc fuel) n h e = elim (Bool-cases (ltb n 10)) [
  | inl small ↦ cc (rw small at e)
  | inr large ↦ concat-ne-nil _ _ (rw large at e)
]

number-decimal : (n : ℕ) → number (decimal n) ≡ some n
unfolding number decimal
number-decimal n = go (digits_of (suc n) n) refl
  where
    go : (s : Bytes) → digits_of (suc n) n ≡ s → number s ≡ some n
    go [] e = absurd (digits_of-ne-nil (suc n) n (omega arith) e)
    go (c ∷ s) e =
        ap (digits_value 0) (sym e ∙ sym (append-nil (digits_of (suc n) n)))
        ∙ digits_value-digits_of (suc n) n [] (omega arith)

pub Free-itoa : (c : ℕ) (z : ℤ) → (c < b'-') ⊎ (b'9' < c) → Free c (itoa z)
unfolding itoa has_byte
Free-itoa c (pos n) h = Free-digits_of c (suc n) n (ground arith)
Free-itoa c (negsuc n) h = ground (arith, Free-digits_of c (suc (suc n)) (suc n) (ground arith))

-- `Atoi` reads back every `int` that `%d` prints.
pub atoi-itoa : (z : ℤ) → IsInt64 z → atoi (itoa z) ≡ some z
unfolding itoa
atoi-itoa (pos n) h = go (decimal n) refl
  where
    go : (s : Bytes) → decimal n ≡ s → atoi s ≡ some (pos n)
    go [] e = absurd (digits_of-ne-nil (suc n) n (omega arith) e)
    go (c ∷ s) e =
        let minus = Free-digits_of b'-' (suc n) n (inl (omega arith)) in
        let plus = Free-digits_of b'+' (suc n) n (inl (omega arith)) in
        unfold atoi has_byte in ground (arith, e, minus, plus, number-decimal n)
atoi-itoa (negsuc n) h = unfold atoi in ground (arith, number-decimal (suc n))
