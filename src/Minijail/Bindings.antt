-- ===== src/Minijail/Bindings.antt =====
-- pkg/minijail/minijail.go: the bindings of minijail and their texts.
use cifuzz.Base.{not, ◌||◌, Option, none, some, List, [], ◌∷◌, ◌++◌, if◌then◌else◌}
use cifuzz.Base.Int.{ℤ, pos, int_eq}
use cifuzz.Base.Result.{Result, ok, err}
use cifuzz.Text.{Bytes, codes, bytes_eq, has_byte, cut}
use cifuzz.Text.Decimal.{atoi}

-- `WritableOption` is an int.
abbrev pub read_only : ℤ
read_only = pos 0

abbrev pub read_write : ℤ
read_write = pos 1

pub record Binding : Type 0 where
  pub source : Bytes
  pub target : Bytes
  pub writable : ℤ

-- The zero values of a Go literal that leaves out `Target`
abbrev pub bind : Bytes → ℤ → Binding
bind source writable = record { source = source; target = []; writable = writable }

-- A missing target is the source.
unfoldable pub with_target : Binding → Binding
unfolding bytes_eq
with_target b = if bytes_eq b.target [] then record b { target = b.source } else b

abbrev pub comma : Bytes → Bytes → Bytes
comma a b = a ++ (b',' ∷ b)

unfoldable pub text_of : Binding → Bytes
unfolding has_byte bytes_eq
text_of b =
    if int_eq b.writable read_write
    then comma b.source (comma b.target (codes "1"))
    else if has_byte b',' b.source || has_byte b',' b.target
    then comma b.source (comma b.target (codes "0"))
    else if not (bytes_eq b.source b.target)
    then comma b.source b.target
    else b.source

-- `Binding.String`
unfoldable pub binding_text : Binding → Bytes
unfolding with_target text_of
binding_text b = text_of (with_target b)

abbrev pub two_tokens : Bytes → Option (Bytes × Bytes) → List Bytes
two_tokens s none = s ∷ []
two_tokens s (some (a, b)) = a ∷ b ∷ []

unfoldable pub three_tokens : Bytes → Option (Bytes × Bytes) → List Bytes
unfolding cut
three_tokens s none = s ∷ []
three_tokens s (some (a, b)) = a ∷ two_tokens b (cut b',' b)

-- `strings.SplitN(s, ",", 3)`
unfoldable pub split_in_three : Bytes → List Bytes
unfolding cut three_tokens
split_in_three s = three_tokens s (cut b',' s)

pub data BindingError : Type 0 where
  bad_writable bad_binding : Bytes → BindingError

abbrev pub with_writable : Bytes → Bytes → Bytes → Option ℤ → Result BindingError Binding
with_writable source target s none = err (bad_writable s)
with_writable source target s (some n) =
    ok (record { source = source; target = target; writable = n })

-- `BindingFromString`
unfoldable pub binding_from_tokens : Bytes → List Bytes → Result BindingError Binding
unfolding atoi
binding_from_tokens s (a ∷ []) = ok (record { source = a; target = a; writable = read_only })
binding_from_tokens s (a ∷ (b ∷ [])) = ok (record { source = a; target = b; writable = read_only })
binding_from_tokens s (a ∷ (b ∷ (c ∷ []))) = with_writable a b c (atoi c)
binding_from_tokens s _ = err (bad_binding s)

unfoldable pub binding_from_string : Bytes → Result BindingError Binding
unfolding split_in_three binding_from_tokens
binding_from_string s = binding_from_tokens s (split_in_three s)
