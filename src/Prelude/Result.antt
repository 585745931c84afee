-- ===== src/Prelude/Result.antt =====
-- The results of calls that can fail: Go's `(value, error)` pairs.
use mathlib.Core.Path.{◌≡◌, refl}

pub data Result {ℓ κ} (E : Type ℓ) (A : Type κ) : Type (ℓ ⊔ κ) where
  ok : A → Result E A
  err : E → Result E A

infixl 5 ◌>>=◌
abbrev pub ◌>>=◌ {ℓ κ μ} :
    {E : Type ℓ} {A : Type κ} {B : Type μ} → Result E A → (A → Result E B) → Result E B
ok a >>= f = f a
err e >>= f = err e

-- fmt.Errorf with %w: the error of a step, wrapped by its caller.
abbrev pub wrap_err {ℓ κ μ} :
    {E : Type ℓ} {D : Type μ} {A : Type κ} → (E → D) → Result E A → Result D A
wrap_err w (ok a) = ok a
wrap_err w (err e) = err (w e)

-- A chain that ends well has a first step that ended well.
pub >>=-eq-ok {ℓ κ μ} :
    {E : Type ℓ} {A : Type κ} {B : Type μ} (first : Result E A) (next : A → Result E B) {out : B}
    → (first >>= next) ≡ ok out
    → (mid : A) × (first ≡ ok mid) × (next mid ≡ ok out)
>>=-eq-ok (err failure) next h = cc
>>=-eq-ok (ok mid) next h = (mid, refl, h)
