-- ===== src/Base/Bits.antt =====
-- Bits of machine words: `bit_and`, `bit_or` and complement, read bit by bit.
use Prim.Native.Nat.{
  ℕ, zero, suc, ◌+◌, ◌-◌, ◌*◌, ◌/◌, ◌%◌, ◌^◌, ◌≤◌, ◌<◌, min, max, bit_and, bit_or, digits,
  bit_and-bitwise, bit_or-bitwise,
}
use mathlib.Core.Path.{◌≡◌, refl, ◌∙◌, ap}
use native.Mathlib.Nat.{pow-suc, one-le-pow}
use native.Mathlib.Omega.{arith}
use likwid_bench.Base.Tests.{◌==◌, if◌then◌else◌}

-- A sum by recursion on its first term.
raise : ℕ → ℕ → ℕ
raise zero n = n
raise (suc k) n = suc (raise k n)

raise_lem : (k n : ℕ) → raise k n ≡ k + n
unfolding raise
raise_lem zero n = omega arith
raise_lem (suc k) n = omega (arith, raise_lem k n)

-- The recursion on digits does not depend on a sufficient count of digits: one more changes
-- nothing, and so any number more.
module _ (z : ℕ → ℕ) (f : ℕ → ℕ → ℕ) where
  one_more : (a b n : ℕ) → a ≤ n → digits z f (suc n) a b ≡ digits z f n a b
  one_more zero b zero enough = refl
  one_more zero b (suc n) enough = refl
  one_more (suc a) b zero enough = absurd (omega arith)
  one_more (suc a) b (suc n) enough =
      ap (λ high. high * 2 + f (suc a % 2) (b % 2)) (one_more (suc a / 2) (b / 2) n (omega arith))

  any_more : (extra a b : ℕ) → digits z f (raise extra a) a b ≡ digits z f a a b
  unfolding raise
  any_more zero a b = refl
  any_more (suc extra) a b =
      one_more a b (raise extra a) (omega (arith, raise_lem extra a)) ∙ any_more extra a b

  digits-suc :
      (a b : ℕ)
      → digits z f (suc a) (suc a) b
        ≡ digits z f (suc a / 2) (suc a / 2) (b / 2) * 2 + f (suc a % 2) (b % 2)
  digits-suc a b =
      let exact : a ≡ raise (a - suc a / 2) (suc a / 2) =
        omega (arith, raise_lem (a - suc a / 2) (suc a / 2)) in
      ap (λ high. high * 2 + f (suc a % 2) (b % 2))
        (ap (λ n. digits z f n (suc a / 2) (b / 2)) exact
          ∙ any_more (a - suc a / 2) (suc a / 2) (b / 2))

-- The lowest digit of a conjunction and of a disjunction, and the rest.
pub bit_and_parts :
    (a b : ℕ)
    → (bit_and a b % 2 ≡ min (a % 2) (b % 2)) × (bit_and a b / 2 ≡ bit_and (a / 2) (b / 2))
bit_and_parts zero b = omega (arith, bit_and-bitwise 0 b, bit_and-bitwise 0 (b / 2))
bit_and_parts (suc a) b = omega (
  arith,
  bit_and-bitwise (suc a) b,
  bit_and-bitwise (suc a / 2) (b / 2),
  digits-suc (λ b. zero) min a b,
)

bit_or_parts :
    (a b : ℕ) → (bit_or a b % 2 ≡ max (a % 2) (b % 2)) × (bit_or a b / 2 ≡ bit_or (a / 2) (b / 2))
bit_or_parts zero b = omega (arith, bit_or-bitwise 0 b, bit_or-bitwise 0 (b / 2))
bit_or_parts (suc a) b = omega (
  arith,
  bit_or-bitwise (suc a) b,
  bit_or-bitwise (suc a / 2) (b / 2),
  digits-suc (λ b. b) max a b,
)

-- Bit `k` of `w`.
pub testbit : ℕ → ℕ → ℕ
testbit w zero = w % 2
testbit w (suc k) = testbit (w / 2) k

pub testbit-lt : (w k : ℕ) → testbit w k < 2
unfolding testbit
testbit-lt w zero = omega arith
testbit-lt w (suc k) = testbit-lt (w / 2) k

pub testbit-bit_and : (a b k : ℕ) → testbit (bit_and a b) k ≡ min (testbit a k) (testbit b k)
unfolding testbit
testbit-bit_and a b zero = (bit_and_parts a b).0
testbit-bit_and a b (suc k) =
    ap (λ r. testbit r k) (bit_and_parts a b).1 ∙ testbit-bit_and (a / 2) (b / 2) k

pub testbit-bit_or : (a b k : ℕ) → testbit (bit_or a b) k ≡ max (testbit a k) (testbit b k)
unfolding testbit
testbit-bit_or a b zero = (bit_or_parts a b).0
testbit-bit_or a b (suc k) =
    ap (λ r. testbit r k) (bit_or_parts a b).1 ∙ testbit-bit_or (a / 2) (b / 2) k

testbit-zero : (j : ℕ) → testbit 0 j ≡ 0
unfolding testbit
testbit-zero zero = refl
testbit-zero (suc j) = testbit-zero j

half-two-pow-suc : (k : ℕ) → 2 ^ suc k / 2 ≡ 2 ^ k
half-two-pow-suc k = omega (arith, pow-suc 2 k)

pub testbit-pow : (k j : ℕ) → testbit (2 ^ k) j ≡ (if k == j then 1 else 0)
unfolding testbit
testbit-pow zero zero = refl
testbit-pow zero (suc j) = testbit-zero j ∙ ground arith
testbit-pow (suc k) zero = ground (arith, pow-suc 2 k)
testbit-pow (suc k) (suc j) =
    ap (λ w. testbit w j) (half-two-pow-suc k) ∙ testbit-pow k j ∙ ground arith

bit_and-zero_below : (n a : ℕ) → a ≤ n → bit_and a 0 ≡ 0
bit_and-zero_below n zero h = refl
bit_and-zero_below zero (suc a) h = absurd (omega arith)
bit_and-zero_below (suc n) (suc a) h =
    omega (arith, bit_and_parts (suc a) 0, bit_and-zero_below n (suc a / 2) (omega arith))

pub bit_and-zero : (a : ℕ) → bit_and a 0 ≡ 0
bit_and-zero a = bit_and-zero_below a a (omega arith)

-- The mask of one bit, in a conjunction.
pub bit_and-pow : (w k : ℕ) → bit_and w (2 ^ k) ≡ testbit w k * 2 ^ k
unfolding testbit
bit_and-pow w zero = omega (arith, bit_and_parts w 1, bit_and-zero (w / 2))
bit_and-pow w (suc k) = omega (
  arith,
  pow-suc 2 k,
  bit_and_parts w (2 ^ suc k),
  ap (bit_and (w / 2)) (half-two-pow-suc k),
  bit_and-pow (w / 2) k,
  ap (λ (t : ℕ). testbit (w / 2) k * t) (pow-suc 2 k),
)

-- `~x` for an unsigned word of `n` bits.
abbrev pub complement : ℕ → ℕ → ℕ
complement n x = 2 ^ n - 1 - x

pub testbit-complement :
    (n x j : ℕ) → x < 2 ^ n → j < n → testbit (complement n x) j ≡ 1 - testbit x j
unfolding testbit
testbit-complement zero x j h l = elim l [ ]
testbit-complement (suc n) x zero h l = omega (arith, pow-suc 2 n, one-le-pow n 2)
testbit-complement (suc n) x (suc j) h l =
    ap (λ w. testbit w j) half
    ∙ testbit-complement n (x / 2) j (omega (arith, pow-suc 2 n)) (omega arith)
  where
    half : complement (suc n) x / 2 ≡ complement n (x / 2)
    half = omega (arith, pow-suc 2 n)

-- The width of a word is kept.
bit_or-lt : (n a b : ℕ) → a < 2 ^ n → b < 2 ^ n → bit_or a b < 2 ^ n
bit_or-lt zero a b p q =
    let ea : a ≡ 0 = omega arith in let eb : b ≡ 0 = omega arith in rw (ea, eb) (omega arith)
bit_or-lt (suc n) a b p q = omega (
  arith,
  pow-suc 2 n,
  bit_or_parts a b,
  bit_or-lt n (a / 2) (b / 2) (omega (arith, pow-suc 2 n)) (omega (arith, pow-suc 2 n)),
)

bit_and-lt : (n a b : ℕ) → a < 2 ^ n → b < 2 ^ n → bit_and a b < 2 ^ n
bit_and-lt zero a b p q =
    let ea : a ≡ 0 = omega arith in let eb : b ≡ 0 = omega arith in rw (ea, eb) (omega arith)
bit_and-lt (suc n) a b p q = omega (
  arith,
  pow-suc 2 n,
  bit_and_parts a b,
  bit_and-lt n (a / 2) (b / 2) (omega (arith, pow-suc 2 n)) (omega (arith, pow-suc 2 n)),
)
