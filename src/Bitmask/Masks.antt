-- ===== src/Bitmask/Masks.antt =====
-- The masks of include/bitmask.h at powers of two against quotients, bit by bit.
use Prim.Native.Nat.{bit_and}
use native.Mathlib.Nat.{
  pow-suc, pow-succ', one-le-pow, mul_assoc, div-div-eq-div-mul, div-mul-le_self,
  mod-eq-sub-div-mul,
}
use likwid_bench.Base.{
  ℕ, zero, suc, ◌-◌, ◌*◌, ◌/◌, ◌%◌, ◌^◌, ◌≤◌, ◌<◌, ◌≡◌, refl, sym, ◌∙◌, ap, ap₂, arith,
}
use likwid_bench.Base.Bits.{bit_and_parts, complement, bit_and-zero}

-- The conjunction with all ones.
bit_and-ones : (n a : ℕ) → a < 2 ^ n → bit_and a (complement n 0) ≡ a
bit_and-ones zero a h = bit_and-zero a ∙ omega arith
bit_and-ones (suc n) a h = omega (
  arith,
  pow-suc 2 n,
  one-le-pow n 2,
  bit_and_parts a (complement (suc n) 0),
  ap (bit_and (a / 2)) (half_ones n),
  bit_and-ones n (a / 2) (omega (arith, pow-suc 2 n)),
)
  where
    half_ones : (n : ℕ) → complement (suc n) 0 / 2 ≡ complement n 0
    half_ones n = omega (arith, pow-suc 2 n, one-le-pow n 2)

quotient-half : (k a : ℕ) → a / 2 ^ suc k * 2 ^ suc k ≡ a / 2 / 2 ^ k * 2 ^ k * 2
quotient-half k a =
    ap (λ q. q * 2 ^ suc k) (ap (λ p. a / p) (pow-succ' 2 k) ∙ sym (div-div-eq-div-mul a 2 (2 ^ k)))
    ∙ ap (λ p. a / 2 / 2 ^ k * p) (pow-suc 2 k)
    ∙ sym (mul_assoc (a / 2 / 2 ^ k) (2 ^ k) 2)

-- The conjunction with `~(2 ^ k - 1)` clears the lower `k` bits.
pub bit_and-mask :
    (k n a : ℕ) → k ≤ n → a < 2 ^ n → bit_and a (complement n (2 ^ k - 1)) ≡ a / 2 ^ k * 2 ^ k
bit_and-mask zero n a le h = bit_and-ones n a h ∙ omega arith
bit_and-mask (suc k) zero a le h = absurd (omega arith)
bit_and-mask (suc k) (suc n) a le h =
    let low : complement (suc n) (2 ^ suc k - 1) / 2 ≡ complement n (2 ^ k - 1) =
      omega (arith, pow-suc 2 n, pow-suc 2 k, one-le-pow n 2, one-le-pow k 2) in
    let even : complement (suc n) (2 ^ suc k - 1) % 2 ≡ 0 =
      omega (arith, pow-suc 2 n, pow-suc 2 k, one-le-pow n 2, one-le-pow k 2) in
    let ih = bit_and-mask k n (a / 2) (omega arith) (omega (arith, pow-suc 2 n)) in
    omega (
      arith,
      bit_and_parts a (complement (suc n) (2 ^ suc k - 1)),
      even,
      ap (bit_and (a / 2)) low,
      ih,
    )
    ∙ sym (quotient-half k a)

half_pred : (k : ℕ) → (2 ^ suc k - 1) / 2 ≡ 2 ^ k - 1
half_pred k = omega (arith, pow-suc 2 k, one-le-pow k 2)

half_pow : (k : ℕ) → 2 ^ suc k / 2 ≡ 2 ^ k
half_pow k = omega (arith, pow-suc 2 k)

-- The conjunction with `2 ^ k - 1` keeps the lower `k` bits.
bit_and-low : (k a : ℕ) → bit_and a (2 ^ k - 1) ≡ a - a / 2 ^ k * 2 ^ k
bit_and-low zero a = bit_and-zero a ∙ omega arith
bit_and-low (suc k) a =
    let rest = ap (bit_and (a / 2)) (half_pred k) ∙ bit_and-low k (a / 2) in
    omega (
      arith,
      pow-suc 2 k,
      one-le-pow k 2,
      bit_and_parts a (2 ^ suc k - 1),
      rest,
      quotient-half k a,
      div-mul-le_self (a / 2) (2 ^ k),
    )

pub bit_and-mod : (k a : ℕ) → bit_and a (2 ^ k - 1) ≡ a % 2 ^ k
bit_and-mod k a = bit_and-low k a ∙ sym (mod-eq-sub-div-mul a (2 ^ k))

-- A power of two has no bit in common with its predecessor.
pub bit_and-pred : (k : ℕ) → bit_and (2 ^ k) (2 ^ k - 1) ≡ 0
bit_and-pred zero = refl
bit_and-pred (suc k) =
    let halves : bit_and (2 ^ suc k / 2) ((2 ^ suc k - 1) / 2) ≡ 0 =
      ap₂ bit_and (half_pow k) (half_pred k) ∙ bit_and-pred k in
    omega (arith, pow-suc 2 k, bit_and_parts (2 ^ suc k) (2 ^ suc k - 1), halves)
