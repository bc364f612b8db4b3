-- ===== src/Bitmask/Pow2.antt =====
-- The roundings of include/bitmask.h by masks against the general ones, at powers of two.
use Prim.Native.Nat.{bit_and}
use native.Mathlib.Nat.{one-le-pow, pow-le-pow_right, div-mul-le_self}
use likwid_bench.Base.{
  ℕ, ◌+◌, ◌-◌, ◌*◌, ◌/◌, ◌^◌, ◌≤◌, ◌<◌, ◌≡◌, refl, sym, ◌∙◌, ap, Bool, true, false, not, ltb, leb,
  ◌==◌, Bool-cases, inl, inr, arith, ok,
}
use likwid_bench.Bitmask.{
  size_max, wrap, sub, invert, is_not_pow2, is_multipleof_nbits, is_multipleof_pow2,
  roundnearest_nbits, roundnearest_nbits_pow2, roundup_nbits, rounddown_nbits, roundup_nbits_pow2,
  rounddown_nbits_pow2,
}
use likwid_bench.Bitmask.Rounding.{wrap_id}
use likwid_bench.Bitmask.Masks.{bit_and-mask, bit_and-mod, bit_and-pred}

pow_bounds : (k : ℕ) → k < 64 → (1 ≤ 2 ^ k) × (2 ^ k ≤ 9223372036854775808)
pow_bounds k h = (
  one-le-pow k 2 (omega arith),
  pow-le-pow_right {n = 2} (omega arith) {i = k} {j = 63} (omega arith),
)

pow_not_zero : (k : ℕ) → k < 64 → (2 ^ k == 0) ≡ false
pow_not_zero k h = ground (arith, pow_bounds k h)

pred_pow : (k : ℕ) → k < 64 → sub (2 ^ k) 1 ≡ 2 ^ k - 1
pred_pow k h = omega (arith, pow_bounds k h)

pow_is_pow2 : (k : ℕ) → k < 64 → is_not_pow2 (2 ^ k) ≡ false
pow_is_pow2 k h =
    ap (λ p. not (bit_and (2 ^ k) p == 0)) (pred_pow k h) ∙ ap (λ b. not (b == 0)) (bit_and-pred k)

mask-quotient :
    (k n : ℕ)
    → k < 64
    → n ≤ size_max
    → bit_and n (invert (sub (2 ^ k) 1)) ≡ wrap (n / 2 ^ k * 2 ^ k)
mask-quotient k n h le =
    ap (λ p. bit_and n (invert p)) (pred_pow k h)
    ∙ bit_and-mask k 64 n (omega arith) (omega arith)
    ∙ sym (wrap_id (n / 2 ^ k * 2 ^ k) (omega (arith, div-mul-le_self n (2 ^ k))))

-- For a power of two, rounddown_nbits_pow2 returns what rounddown_nbits does, errors included, for every
-- number.
rounddown_nbits_pow2-rounddown_nbits :
    (out : Bool) (k n : ℕ)
    → k < 64
    → n ≤ size_max
    → rounddown_nbits_pow2 out n (2 ^ k) ≡ rounddown_nbits out n (2 ^ k)
unfolding rounddown_nbits_pow2 rounddown_nbits
rounddown_nbits_pow2-rounddown_nbits false k n h le = refl
rounddown_nbits_pow2-rounddown_nbits true k n h le =
    rw (pow_not_zero k h, pow_is_pow2 k h) (ap ok (mask-quotient k n h le))

-- For a power of two, roundup_nbits_pow2 returns what roundup_nbits does, errors included, for every
-- number.
pub roundup_nbits_pow2-roundup_nbits :
    (out : Bool) (k n : ℕ)
    → k < 64
    → n ≤ size_max
    → roundup_nbits_pow2 out n (2 ^ k) ≡ roundup_nbits out n (2 ^ k)
unfolding roundup_nbits_pow2 roundup_nbits
roundup_nbits_pow2-roundup_nbits false k n h le = refl
roundup_nbits_pow2-roundup_nbits true k n h le =
    elim (Bool-cases (ltb (sub size_max (sub (2 ^ k) 1)) n)) [
      | inl over ↦ rw (pow_not_zero k h, pow_is_pow2 k h, over) refl
      | inr fits ↦
          rw (pow_not_zero k h, pow_is_pow2 k h, fits)
            (ap ok (mask-quotient k (sub (wrap (n + 2 ^ k)) 1) h (omega arith)))
    ]

-- For a power of two, is_multipleof_pow2 returns what is_multipleof_nbits does.
is_multipleof_pow2-is_multipleof_nbits :
    (k n : ℕ) → k < 64 → is_multipleof_pow2 n (2 ^ k) ≡ is_multipleof_nbits n (2 ^ k)
unfolding is_multipleof_pow2 is_multipleof_nbits
is_multipleof_pow2-is_multipleof_nbits k n h =
    rw (pow_not_zero k h, pow_is_pow2 k h)
      (ap (λ r. ok (r == 0)) (ap (bit_and n) (pred_pow k h) ∙ bit_and-mod k n))

-- For a power of two up to SIZE_MAX / 2 and a number below SIZE_MAX less half of it,
-- roundnearest_nbits_pow2 returns what roundnearest_nbits does.
roundnearest_nbits_pow2-roundnearest_nbits :
    (out : Bool) (k n : ℕ)
    → k < 63
    → n + 2 ^ k / 2 < size_max
    → roundnearest_nbits_pow2 out n (2 ^ k) ≡ roundnearest_nbits out n (2 ^ k)
unfolding roundnearest_nbits_pow2 roundnearest_nbits
roundnearest_nbits_pow2-roundnearest_nbits false k n h lt = refl
roundnearest_nbits_pow2-roundnearest_nbits true k n h lt =
    let le : 2 ^ k ≤ 4611686018427387904 =
      pow-le-pow_right {n = 2} (omega arith) {i = k} {j = 62} (omega arith) in
    let fits : ltb (sub size_max (2 ^ k / 2)) n ≡ false = ground (arith, le, lt) in
    let small : ltb (size_max / 2) (2 ^ k) ≡ false = ground (arith, le) in
    let inside : leb (sub size_max (2 ^ k / 2)) n ≡ false = ground (arith, le, lt) in
    rw (pow_not_zero k (omega arith), pow_is_pow2 k (omega arith), fits, small, inside)
      (ap ok (mask-quotient k (wrap (n + 2 ^ k / 2)) (omega arith) (omega arith)))
