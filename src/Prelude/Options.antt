-- ===== src/Prelude/Options.antt =====
-- Chains of steps that may fail, and what holds of the result if there is one.
use mathlib.Core.Option.{Option, none, some}

infixl 5 ◌>>=◌ ◌>>◌
abbrev pub ◌>>=◌ {ℓ κ} : {A : Type ℓ} {B : Type κ} → Option A → (A → Option B) → Option B
none >>= f = none
some a >>= f = f a

abbrev pub ◌>>◌ {ℓ κ} : {A : Type ℓ} {B : Type κ} → Option A → Option B → Option B
m >> k = m >>= λ _. k

-- The result, if there is one, has the property.
abbrev pub IfSome {ℓ κ} : {A : Type ℓ} → (A → Type κ) → Option A → Type κ
IfSome P none = Unit
IfSome P (some a) = P a

module _ {A B : Type 0} where
  pub >>=-IfSome :
      (P : A → Type 0) (Q : B → Type 0) (m : Option A) (f : A → Option B)
      → IfSome P m
      → ((a : A) → P a → IfSome Q (f a))
      → IfSome Q (m >>= f)
  >>=-IfSome P Q none f h k = tt
  >>=-IfSome P Q (some a) f h k = k a h

  -- Nothing need be known of what came before.
  pub >>=-IfSome_any :
      (Q : B → Type 0) (m : Option A) (f : A → Option B)
      → ((a : A) → IfSome Q (f a))
      → IfSome Q (m >>= f)
  >>=-IfSome_any Q none f k = tt
  >>=-IfSome_any Q (some a) f k = k a

module _ {A : Type 0} {P Q : A → Type 0} where
  pub IfSome-imp : (m : Option A) → ((a : A) → P a → Q a) → IfSome P m → IfSome Q m
  IfSome-imp none f h = tt
  IfSome-imp (some a) f h = f a h
