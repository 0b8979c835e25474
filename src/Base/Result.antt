-- ===== src/Base/Result.antt =====
-- Go's `(value, error)` results: a value, or the error that the caller sees.
use mathlib.Core.Bool.{Bool, true, false}
use cifuzz.Base.Tests.{if◌then◌else◌}
use mathlib.Core.Path.{◌≡◌, refl, ap, ◌∙◌, subst}

pub data Result {ℓ κ} (E : Type κ) (A : Type ℓ) : Type (ℓ ⊔ κ) where
  ok : A → Result E A
  err : E → Result E A

module _ {ℓ κ μ} {E : Type κ} {A : Type ℓ} {B : Type μ} where
  infixl 5 ◌>>=◌
  abbrev pub ◌>>=◌ : Result E A → (A → Result E B) → Result E B
  ok a >>= f = f a
  err e >>= f = err e

  -- A first step that succeeds
  pub bind_ok :
      (f : A → Result E B) {m : Result E A} {a : A} {r : Result E B}
      → m ≡ ok a
      → f a ≡ r
      → m >>= f ≡ r
  bind_ok f e h = ap (λ m. m >>= f) e ∙ h

module _ {ℓ κ} {E : Type κ} {A : Type ℓ} where
  -- What holds of the value, or of the error
  abbrev pub Ensures : (A → Type ℓ) → (E → Type ℓ) → Result E A → Type ℓ
  Ensures Q R (ok a) = Q a
  Ensures Q R (err e) = R e

  module _ (Q : A → Type ℓ) (R : E → Type ℓ) where
    pub Ensures-ok : {m : Result E A} {a : A} → Ensures Q R m → m ≡ ok a → Q a
    Ensures-ok h e = subst (Ensures Q R) e h

    pub Ensures-if :
        (b : Bool) (m n : Result E A)
        → (b ≡ true → Ensures Q R m)
        → (b ≡ false → Ensures Q R n)
        → Ensures Q R (if b then m else n)
    Ensures-if true m n p q = p refl
    Ensures-if false m n p q = q refl

    pub Ensures-err : {m : Result E A} {e : E} → Ensures Q R m → m ≡ err e → R e
    Ensures-err h e = subst (Ensures Q R) e h

module _ {ℓ κ} {E : Type κ} {A B : Type ℓ} (P : A → Type ℓ) (Q : B → Type ℓ) (R : E → Type ℓ) where
  -- The rule of composition
  pub Ensures-bind :
      (m : Result E A) (f : A → Result E B)
      → Ensures P R m
      → ((a : A) → P a → Ensures Q R (f a))
      → Ensures Q R (m >>= f)
  Ensures-bind (ok a) f h k = k a h
  Ensures-bind (err e) f h k = h

module _ {ℓ κ} {E : Type κ} {A : Type ℓ} (P Q : A → Type ℓ) (R : E → Type ℓ) where
  pub Ensures-map : (m : Result E A) → ((a : A) → P a → Q a) → Ensures P R m → Ensures Q R m
  Ensures-map (ok a) k h = k a h
  Ensures-map (err e) k h = h
