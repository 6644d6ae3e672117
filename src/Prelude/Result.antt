-- ===== src/Prelude/Result.antt =====
-- Python's exceptions as values: a call returns a value or raises an error of the module's own type.
use mathlib.Core.Option.{Option, none, some}
use mathlib.Core.Path.{◌≡◌, refl, ap}
use native.Mathlib.Omega.{arith}

pub data Result {ℓ} (E A : Type ℓ) : Type ℓ where
  ok : A → Result E A
  raise : E → Result E A

infixl 5 ◌>>=◌
abbrev pub ◌>>=◌ {ℓ} : {E A B : Type ℓ} → Result E A → (A → Result E B) → Result E B
ok a >>= f = f a
raise e >>= f = raise e

-- `x` where `None` is an error
abbrev pub from_option {ℓ} : {E A : Type ℓ} → E → Option A → Result E A
from_option e none = raise e
from_option e (some a) = ok a

abbrev pub Returns {ℓ} : {E A B : Type ℓ} → Result E A → (A → Result E B) → B → Type ℓ
Returns {A = A} r f b = (a : A) × (r ≡ ok a) × (f a ≡ ok b)

-- a chain that returns has a first call that returns
pub bind-ok {ℓ} :
    {E A B : Type ℓ} (r : Result E A) (f : A → Result E B) (b : B)
    → (r >>= f) ≡ ok b
    → Returns r f b
bind-ok (ok a) f b h = (a, refl, h)
bind-ok (raise e) f b h = absurd (ground (arith, h))

abbrev pub value_or {ℓ} : {E A : Type ℓ} → A → Result E A → A
value_or a (ok b) = b
value_or a (raise e) = a

pub ok-injective {ℓ} : {E A : Type ℓ} (a b : A) → (let r : Result E A = ok a in r ≡ ok b) → a ≡ b
ok-injective a b h = ap (λ r. value_or a r) h
