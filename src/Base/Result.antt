-- ===== src/Base/Result.antt =====
-- Go's `(value, error)` pairs, of which exactly one part counts.
use mathlib.Core.Path.{Path, ◌≡◌, refl, ap}

pub data Result {ℓ} (E : Type 0) (A : Type ℓ) : Type ℓ where
  ok : A → Result E A
  err : E → Result E A

-- Go's panics: an index or a slice out of range, a remainder by zero, and that of a library.
pub data Panic : Type 0 where
  index_out_of_range slice_out_of_range divide_by_zero library_panic : Panic

infixl 5 ◌>>=◌
abbrev pub ◌>>=◌ {ℓ κ} :
    {E : Type 0} {A : Type ℓ} {B : Type κ} → Result E A → (A → Result E B) → Result E B
ok a >>= f = f a
err e >>= f = err e

unfoldable pub map_err {ℓ} : {E F : Type 0} {A : Type ℓ} → (E → F) → Result E A → Result F A
map_err f (ok a) = ok a
map_err f (err e) = err (f e)

unwrap_or {ℓ} : {E : Type 0} {A : Type ℓ} → A → Result E A → A
unwrap_or a (ok b) = b
unwrap_or a (err e) = a

pub ok-injective {ℓ} : {E : Type 0} {A : Type ℓ} (a b : A) → Path (Result E A) (ok a) (ok b) → a ≡ b
unfolding unwrap_or
ok-injective a b e = ap (unwrap_or a) e

-- A chain that succeeds has succeeded at its first step.
pub bind_ok {ℓ κ} :
    {E : Type 0} {A : Type ℓ} {B : Type κ} (m : Result E A) (f : A → Result E B) {b : B}
    → (m >>= f) ≡ ok b
    → (a : A) × (m ≡ ok a) × (f a ≡ ok b)
bind_ok (ok a) f h = (a, refl, h)
bind_ok (err e) f h = cc
