-- ===== src/Runner/Separators.antt =====
-- The separators in the options of a sanitizer.
use cifuzz.Base.{ℕ, refl, List, [], ◌∷◌, ◌++◌, arith, Bool-cases, inl, inr, All, All-append}
use cifuzz.Text.{Bytes, has_byte, has_prefix, join}
use cifuzz.Text.Split.{Free, has_byte-append}
use cifuzz.Strings.{non_empty, contains_string_with_prefix}
use cifuzz.Env.{Entries, set_entry}
use cifuzz.Runner.{
  option_prefix, option_text, set_default_if_not_set_already, override_option, set_defaults,
  override_options,
}

-- An option that can be written: no separator and no NUL in it.
abbrev pub IsOption : Bytes × Bytes → Type 0
IsOption (k, v) = Free b'=' k × Free b':' (option_text k v) × Free 0 (option_text k v)

-- No byte comes in that is neither in the options nor in what is added.
module _ (c : ℕ) where
  abbrev pub FreeOption : Bytes × Bytes → Type 0
  FreeOption (k, v) = Free c (option_text k v)

  pub Free-set_defaults :
      (m : Entries) (options : List Bytes)
      → All FreeOption m
      → All (Free c) options
      → All (Free c) (set_defaults options m)
  unfolding set_defaults
  Free-set_defaults [] options h f = f
  Free-set_defaults ((key, val) ∷ m) options h f =
      Free-set_defaults m (set_default_if_not_set_already options key val) h.1 (
        unfold set_default_if_not_set_already in
        elim (Bool-cases (contains_string_with_prefix options (option_prefix key))) [
          | inl old ↦ rw old f
          | inr new ↦ rw new (All-append (Free c) options (option_text key val ∷ []) f (h.0, tt))
        ])

  Free-set_entry :
      (prefix kv : Bytes) (options : List Bytes)
      → Free c kv
      → All (Free c) options
      → All (Free c) (set_entry prefix kv options)
  unfolding set_entry
  Free-set_entry prefix kv [] h f = (h, tt)
  Free-set_entry prefix kv (e ∷ options) h f = elim (Bool-cases (has_prefix e prefix)) [
    | inl old ↦ rw old (h, f.1)
    | inr new ↦ rw new (f.0, Free-set_entry prefix kv options h f.1)
  ]

  pub Free-override_options :
      (m : Entries) (options : List Bytes)
      → All FreeOption m
      → All (Free c) options
      → All (Free c) (override_options options m)
  unfolding override_options
  Free-override_options [] options h f = f
  Free-override_options ((key, val) ∷ m) options h f =
      Free-override_options m (override_option options key val) h.1 (
        unfold override_option in
        Free-set_entry (option_prefix key) (option_text key val) options h.0 f)

  pub Free-non_empty :
      (options : List Bytes) → All (Free c) options → All (Free c) (non_empty options)
  unfolding non_empty
  Free-non_empty [] f = tt
  Free-non_empty ([] ∷ options) f = Free-non_empty options f.1
  Free-non_empty ((x ∷ o) ∷ options) f = (f.0, Free-non_empty options f.1)

  pub Free-join :
      (sep : Bytes) (options : List Bytes)
      → Free c sep
      → All (Free c) options
      → Free c (join sep options)
  unfolding join
  Free-join sep [] h f = unfold has_byte in refl
  Free-join sep (o ∷ []) h f = f.0
  Free-join sep (o ∷ p ∷ options) h f = ground (
    arith,
    has_byte-append c o (sep ++ join sep (p ∷ options)),
    has_byte-append c sep (join sep (p ∷ options)),
    Free-join sep (p ∷ options) h f.1,
  )

-- What an option that can be written keeps out.
pub IsOption-Free : (m : Entries) → All IsOption m → All (FreeOption b':') m × All (FreeOption 0) m
IsOption-Free [] h = (tt, tt)
IsOption-Free ((k, v) ∷ m) h =
    let (colons, nuls) = IsOption-Free m h.1 in ((h.0.1, colons), (h.0.2, nuls))
