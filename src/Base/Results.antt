-- ===== src/Base/Results.antt =====
-- The result of a C function that returns 0 or a value on success and a negated errno on failure.
use mathlib.Core.Path.{◌≡◌, refl}

-- The codes that the modelled functions return. `fail` is a bare -1.
pub data Errno : Type 0 where
  einval enomem enobufs enoent eexist enospc efault eoverflow fail : Errno

pub data Result {ℓ} (A : Type ℓ) : Type ℓ where
  ok : A → Result A
  err : Errno → Result A

infixl 5 ◌>>=◌
abbrev pub ◌>>=◌ {ℓ κ} : {A : Type ℓ} {B : Type κ} → Result A → (A → Result B) → Result B
ok a >>= f = f a
err e >>= f = err e

pub >>=_assoc {ℓ κ μ} :
    {A : Type ℓ} {B : Type κ} {C : Type μ} (m : Result A) (f : A → Result B) (g : B → Result C)
    → ((m >>= f) >>= g) ≡ (m >>= λ a. f a >>= g)
>>=_assoc (ok a) f g = refl
>>=_assoc (err e) f g = refl
