-- ===== src/Minijail/BindingTexts.antt =====
-- The texts of bindings, read back.
use cifuzz.Base.{◌≡◌, ◌⊎◌, inl, inr, ap, sym, ◌∙◌, [], ◌∷◌, arith}
use mathlib.Core.Path.{ap₂}
use cifuzz.Base.Result.{ok}
use cifuzz.Text.{Bytes, codes, bytes_eq_iff}
use cifuzz.Text.Split.{Free, cut-append, cut-eq-none}
use cifuzz.Text.Decimal.{atoi}
use cifuzz.Minijail.Bindings.{
  Binding, read_only, read_write, with_target, text_of, comma, binding_text, two_tokens,
  three_tokens, split_in_three, binding_from_tokens, binding_from_string,
}

-- A binding that the texts can express
abbrev pub IsPlain : Binding → Type 0
IsPlain b =
    Free b',' b.source × Free b',' b.target × ((b.writable ≡ read_only) ⊎ (b.writable ≡ read_write))

split_one : (s : Bytes) → Free b',' s → split_in_three s ≡ s ∷ []
unfolding split_in_three three_tokens
split_one s h = ap (three_tokens s) ((cut-eq-none b',' s).1 h)

split_two : (s t : Bytes) → Free b',' s → Free b',' t → split_in_three (comma s t) ≡ s ∷ t ∷ []
unfolding split_in_three three_tokens
split_two s t h k =
    ap (three_tokens (comma s t)) (cut-append b',' s t h)
    ∙ ap (λ r. s ∷ two_tokens t r) ((cut-eq-none b',' t).1 k)

split_three :
    (s t u : Bytes)
    → Free b',' s
    → Free b',' t
    → split_in_three (comma s (comma t u)) ≡ s ∷ t ∷ u ∷ []
unfolding split_in_three three_tokens
split_three s t u h k =
    ap (three_tokens (comma s (comma t u))) (cut-append b',' s (comma t u) h)
    ∙ ap (λ r. s ∷ two_tokens (comma t u) r) (cut-append b',' t u k)

with_target-IsPlain : (b : Binding) → IsPlain b → IsPlain (with_target b)
unfolding with_target
with_target-IsPlain b h = ground arith

text_of-read_write :
    (b : Binding)
    → b.writable ≡ read_write
    → text_of b ≡ comma b.source (comma b.target (codes "1"))
unfolding text_of
text_of-read_write b e = ground arith

text_of-read_only :
    (b : Binding)
    → Free b',' b.source
    → Free b',' b.target
    → b.writable ≡ read_only
    → ((b.source ≡ b.target) × (text_of b ≡ b.source)) ⊎ (text_of b ≡ comma b.source b.target)
unfolding text_of
text_of-read_only b h k e = ground (arith, bytes_eq_iff b.source b.target)

text_of-binding : (b : Binding) → IsPlain b → binding_from_string (text_of b) ≡ ok b
unfolding binding_from_string binding_from_tokens atoi
text_of-binding b (h, k, inr e) =
    ap binding_from_string (text_of-read_write b e)
    ∙ ap (binding_from_tokens _) (split_three b.source b.target (codes "1") h k)
    ∙ ap (λ w. ok (record b { writable = w })) (sym e)
text_of-binding b (h, k, inl e) = short (text_of-read_only b h k e)
  where
    short :
        ((b.source ≡ b.target) × (text_of b ≡ b.source)) ⊎ (text_of b ≡ comma b.source b.target)
        → binding_from_string (text_of b) ≡ ok b
    short (inl (same, t)) =
        ap binding_from_string t
        ∙ ap (binding_from_tokens _) (split_one b.source h)
        ∙ ap₂ (λ a w. ok (record b { target = a; writable = w })) same (sym e)
    short (inr t) =
        ap binding_from_string t
        ∙ ap (binding_from_tokens _) (split_two b.source b.target h k)
        ∙ ap (λ w. ok (record b { writable = w })) (sym e)

-- The text of a binding reads back as the binding, with the source for a missing target, when source and
-- target have no comma and it is writable or read-only.
pub binding_from_string-binding_text :
    (b : Binding) → IsPlain b → binding_from_string (binding_text b) ≡ ok (with_target b)
unfolding binding_text
binding_from_string-binding_text b h = text_of-binding (with_target b) (with_target-IsPlain b h)
