-- ===== src/Bitmask/Rounding.antt =====
-- What the general roundings of include/bitmask.h compute.
use native.Mathlib.Nat.{div-mul-le_self, lt-div-mul-add, mul-mod_left}
use likwid_bench.Base.{
  ℕ, ◌+◌, ◌-◌, ◌*◌, ◌/◌, ◌%◌, ◌≤◌, ◌<◌, ◌≡◌, ◌⊎◌, inl, inr, true, false, ltb, leb, ltb→lt, ltb→ge,
  ◌==◌, ==→eq, ==→ne, Bool-cases, arith, Result, ok, err, einval, eoverflow,
}
use likwid_bench.Bitmask.{size_max, wrap, sub, roundup_nbits, rounddown_nbits, roundnearest_nbits}

sub_one : (n : ℕ) → 0 < n → n ≤ size_max + 1 → sub (wrap n) 1 ≡ n - 1
sub_one n pos le = omega arith

sub_from_max : (n : ℕ) → n ≤ size_max → sub size_max n ≡ size_max - n
sub_from_max n le = omega arith

pub wrap_id : (n : ℕ) → n ≤ size_max → wrap n ≡ n
wrap_id n le = omega arith

-- A multiple `v` of `nbits` within the bounds.
abbrev pub Multiple : ℕ → ℕ → ℕ → ℕ → Type 0
Multiple nbits low high v = (v % nbits ≡ 0) × (low ≤ v) × (v ≤ high)

abbrev pub Rounded : ℕ → ℕ → ℕ → Type 0 → Result ℕ → Type 0
Rounded nbits low high overflows (ok v) = Multiple nbits low high v
Rounded nbits low high overflows (err einval) = nbits ≡ 0
Rounded nbits low high overflows (err eoverflow) = overflows
Rounded nbits low high overflows (err _) = ⊥

rounded_quotient :
    (m nbits : ℕ)
    → 0 < nbits
    → m ≤ size_max
    → Multiple nbits (m + 1 - nbits) m (wrap (m / nbits * nbits))
rounded_quotient m nbits pos le =
    let below : m / nbits * nbits ≤ m = div-mul-le_self m nbits in
    let above : m < m / nbits * nbits + nbits = lt-div-mul-add {a = m} {b = nbits} pos in
    rw (wrap_id (m / nbits * nbits) (omega arith))
      (mul-mod_left (m / nbits) nbits, omega arith, below)

widen :
    (nbits low high low' high' v : ℕ)
    → low' ≤ low
    → high ≤ high'
    → Multiple nbits low high v
    → Multiple nbits low' high' v
widen nbits low high low' high' v le le' (e, h, k) = (e, omega arith, omega arith)

leb→le : (a b : ℕ) → leb a b ≡ true → a ≤ b
leb→le a b h = ground arith

leb→gt : (a b : ℕ) → leb a b ≡ false → b < a
leb→gt a b h = ground arith

positive : (nbits : ℕ) → (nbits == 0) ≡ false → 0 < nbits
positive nbits e = ground (arith, ==→ne nbits 0 e)

-- roundup_nbits, with a pointer for the result, gives a multiple of nbits from the number on that is
-- less than nbits above it; -EINVAL means that nbits is 0, and -EOVERFLOW that the number is
-- within nbits - 1 of SIZE_MAX. No step wraps around.
pub roundup_nbits-Rounded :
    (n nbits : ℕ)
    → n ≤ size_max
    → nbits ≤ size_max
    → Rounded nbits n (n + (nbits - 1)) (size_max - (nbits - 1) < n) (roundup_nbits true n nbits)
unfolding roundup_nbits
roundup_nbits-Rounded n nbits hn hb = elim (Bool-cases (nbits == 0)) [
  | inl zero ↦ rw zero (==→eq nbits 0 zero)
  | inr other ↦
      let pos = positive nbits other in
      let bound : sub size_max (sub nbits 1) ≡ size_max - (nbits - 1) = omega arith in
      elim (Bool-cases (ltb (sub size_max (sub nbits 1)) n)) [
        | inl over ↦
            rw (other, over) (omega (arith, bound, ltb→lt (sub size_max (sub nbits 1)) n over))
        | inr fits ↦
            let le = ltb→ge (sub size_max (sub nbits 1)) n fits in
            let sum : sub (wrap (n + nbits)) 1 ≡ n + nbits - 1 =
              sub_one (n + nbits) (omega arith) (omega (arith, bound, le)) in
            rw (other, fits, sum)
              (widen nbits (n + nbits - 1 + 1 - nbits) (n + nbits - 1) n (n + (nbits - 1))
                (wrap ((n + nbits - 1) / nbits * nbits)) (omega arith) (omega arith)
                (rounded_quotient (n + nbits - 1) nbits pos (omega (arith, bound, le))))
      ]
]

-- rounddown_nbits, with a pointer for the result, gives a multiple of nbits up to the number that is
-- less than nbits below it; -EINVAL means that nbits is 0, and there is no other error.
rounddown_nbits-Rounded :
    (n nbits : ℕ)
    → n ≤ size_max
    → nbits ≤ size_max
    → Rounded nbits (n + 1 - nbits) n ⊥ (rounddown_nbits true n nbits)
unfolding rounddown_nbits
rounddown_nbits-Rounded n nbits hn hb = elim (Bool-cases (nbits == 0)) [
  | inl zero ↦ rw zero (==→eq nbits 0 zero)
  | inr other ↦ rw other (rounded_quotient n nbits (positive nbits other) hn)
]

-- roundnearest_nbits, with a pointer for the result, gives a multiple of nbits at most half of nbits
-- away from the number; -EINVAL means that nbits is 0, and -EOVERFLOW that nbits is above
-- SIZE_MAX / 2 or the number within nbits / 2 of SIZE_MAX. No step wraps around.
pub roundnearest_nbits-Rounded :
    (n nbits : ℕ)
    → n ≤ size_max
    → nbits ≤ size_max
    → Rounded nbits
        (n - nbits / 2)
        (n + nbits / 2)
        ((size_max / 2 < nbits) ⊎ (size_max - nbits / 2 ≤ n))
        (roundnearest_nbits true n nbits)
unfolding roundnearest_nbits
roundnearest_nbits-Rounded n nbits hn hb = elim (Bool-cases (nbits == 0)) [
  | inl zero ↦ rw zero (==→eq nbits 0 zero)
  | inr other ↦ elim (Bool-cases (ltb (size_max / 2) nbits)) [
    | inl large ↦ rw (other, large) (inl (ltb→lt (size_max / 2) nbits large))
    | inr small ↦ elim (Bool-cases (leb (sub size_max (nbits / 2)) n)) [
      | inl over ↦
          let le = leb→le (sub size_max (nbits / 2)) n over in
          rw (other, small, over) (inr (omega (arith, le)))
      | inr fits ↦
          let lt = leb→gt (sub size_max (nbits / 2)) n fits in
          let room : n + nbits / 2 ≤ size_max = omega (arith, lt) in
          rw (other, small, fits, wrap_id (n + nbits / 2) room)
            (widen nbits (n + nbits / 2 + 1 - nbits) (n + nbits / 2) (n - nbits / 2) (n + nbits / 2)
              (wrap ((n + nbits / 2) / nbits * nbits)) (omega arith) (omega arith)
              (rounded_quotient (n + nbits / 2) nbits (positive nbits other) room))
    ]
  ]
]
