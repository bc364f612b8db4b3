-- ===== src/Bitmap/Bits.antt =====
-- `set_bit`, `clear_bit` and `is_bit_set` of src/bitmap.c against the set of indices in the map.
use Prim.Native.Nat.{bit_and, bit_or}
use native.Mathlib.Nat.{one-le-pow, pow-le-pow_right}
use likwid_bench.Base.{
  ℕ, zero, suc, ◌*◌, ◌/◌, ◌%◌, ◌^◌, ◌≤◌, ◌<◌, ◌≡◌, refl, ◌∙◌, Bool, true, false, not, ◌&&◌, ◌||◌,
  Option, some, List, arith, ok, leb, ◌==◌, if◌then◌else◌, set, get_or, length, ==→eq, ==→ne, sym,
  length-set, get_or-set_self, get_or-set_ne, Bool-cases, inl, inr,
}
use likwid_bench.Base.Bits.{
  testbit, testbit-lt, testbit-bit_and, testbit-bit_or, testbit-pow, bit_and-pow, complement,
  testbit-complement,
}
use likwid_bench.Bitmap.{Bitmap, Status, mask, word_at, set_bit, clear_bit, is_bit_set}

-- A created bitmap: enough words for the size, with no wrap in the computation of their number.
pub record IsValid (b : Bitmap) (words : List ℕ) : Type 0 where
  pub allocated : b.words ≡ some words
  pub covers : b.size ≤ length words * 64

test_product : (t p : ℕ) → t < 2 → 1 ≤ p → not (t * p == 0) ≡ (t == 1)
test_product zero p h q = ground arith
test_product (suc zero) p h q = ground arith
test_product (suc (suc t)) p h q = absurd (omega arith)

-- The test on one word reads one bit.
test_word : (w k : ℕ) → not (bit_and w (2 ^ k) == 0) ≡ (testbit w k == 1)
test_word w k =
    rw (bit_and-pow w k)
      (test_product (testbit w k) (2 ^ k) (testbit-lt w k) (one-le-pow k 2 (omega arith)))

set_word : (w k j : ℕ) → (testbit (bit_or w (2 ^ k)) j == 1) ≡ (k == j || testbit w j == 1)
set_word w k j = ground (arith, testbit-bit_or w (2 ^ k) j, testbit-pow k j, testbit-lt w j)

pow-lt_word : (k : ℕ) → k < 64 → 2 ^ k < 2 ^ 64
pow-lt_word k h =
    omega (arith, pow-le-pow_right {n = 2} (omega arith) {i = k} {j = 63} (omega arith))

clear_word :
    (w k j : ℕ)
    → k < 64
    → j < 64
    → (testbit (bit_and w (complement 64 (2 ^ k))) j == 1) ≡ (not (k == j) && testbit w j == 1)
clear_word w k j p q = ground (
  arith,
  testbit-bit_and w (complement 64 (2 ^ k)) j,
  testbit-complement 64 (2 ^ k) j (pow-lt_word k p) q,
  testbit-pow k j,
  testbit-lt w j,
)

-- The bit of a list of words at an index.
abbrev bit : List ℕ → ℕ → Bool
bit words i = testbit (word_at words i) (i % 64) == 1

-- A write of one word, seen at every index: `f` says what becomes of a bit.
bit-set :
    (words : List ℕ) (i j w : ℕ)
    → i / 64 < length words
    → bit (set words (i / 64) w) j
      ≡ (if i / 64 == j / 64 then testbit w (j % 64) == 1 else bit words j)
bit-set words i j w h = elim (Bool-cases (i / 64 == j / 64)) [
  | inl same ↦
      let e : i / 64 ≡ j / 64 = ==→eq (i / 64) (j / 64) same in
      let r : get_or (set words (i / 64) w) (j / 64) 0 ≡ w =
        rw (← e) (get_or-set_self words (i / 64) w 0 h) in
      rw (same, r)
  | inr other ↦
      let r = get_or-set_ne words (i / 64) (j / 64) w 0 (==→ne (i / 64) (j / 64) other) in
      rw (other, r)
]

is_bit_set-bit :
    (b : Bitmap) (words : List ℕ) (j : ℕ)
    → b.words ≡ some words
    → is_bit_set (some b) j ≡ (if leb b.size j then false else bit words j)
unfolding is_bit_set
is_bit_set-bit b words j e = rw e (rw (test_word (word_at words j) (j % 64)))

index_eq : (i j : ℕ) → (i / 64 == j / 64 && i % 64 == j % 64) ≡ (i == j)
index_eq i j = ground arith

-- What a successful update of a valid map of size `n` has done: the map is valid, its size is kept,
-- and index `j` now reads as `reads j`.
pub record Updated (n : ℕ) (reads : ℕ → Bool) (r : Status × Option Bitmap) : Type 0 where
  pub after : Bitmap
  pub words : List ℕ
  pub returns : r ≡ (ok tt, some after)
  pub valid : IsValid after words
  pub size : after.size ≡ n
  pub bits : (j : ℕ) → is_bit_set (some after) j ≡ reads j

set_bit_at :
    (b : Bitmap) (words : List ℕ) (i : ℕ)
    → b.words ≡ some words
    → i < b.size
    → set_bit (some b) i ≡ (
      ok tt,
      some (record b { words = some (set words (i / 64) (bit_or (word_at words i) (mask i))) }),
    )
unfolding set_bit
set_bit_at b words i e h = ground arith

clear_bit_at :
    (b : Bitmap) (words : List ℕ) (i : ℕ)
    → b.words ≡ some words
    → i < b.size
    → clear_bit (some b) i ≡ (
      ok tt,
      some (record b {
        words = some (set words (i / 64) (bit_and (word_at words i) (complement 64 (mask i))));
      }),
    )
unfolding clear_bit
clear_bit_at b words i e h = ground arith

module _ (b : Bitmap) (words : List ℕ) (i : ℕ) (v : IsValid b words) (small : i < b.size) where
  -- A write of word `i / 64`, where the new word reads as `f` at each bit.
  Updated-set :
      (w : ℕ) (reads : ℕ → Bool)
      → ((j : ℕ)
          → j < b.size
          → reads j ≡ (if i / 64 == j / 64 then testbit w (j % 64) == 1 else bit words j))
      → ((j : ℕ) → b.size ≤ j → reads j ≡ false)
      → Updated b.size reads (ok tt, some (record b { words = some (set words (i / 64) w) }))
  Updated-set w reads inside outside = record {
    after = t;
    words = set words (i / 64) w;
    returns = refl;
    valid = record { allocated = refl; covers = rw (length-set words (i / 64) w) v.covers };
    size = refl;
    bits = λ j.
        is_bit_set-bit t (set words (i / 64) w) j refl
        ∙ rw (bit-set words i j w (omega (arith, v.covers))) (pick j);
  }
    where
      t : Bitmap
      t = record b { words = some (set words (i / 64) w) }

      pick :
          (j : ℕ)
          → (if leb b.size j
              then false
              else if i / 64 == j / 64
              then testbit w (j % 64) == 1
              else bit words j)
            ≡ reads j
      pick j = elim (Bool-cases (leb b.size j)) [
        | inl out ↦ rw out (sym (outside j (ground arith)))
        | inr in_range ↦ rw in_range (sym (inside j (ground arith)))
      ]

  -- What `reads` is at an index out of range and in range, from the reading of `b`.
  outside_reads : (j : ℕ) → b.size ≤ j → is_bit_set (some b) j ≡ false
  outside_reads j h =
      let out : leb b.size j ≡ true = ground arith in rw (is_bit_set-bit b words j v.allocated, out)

  inside_reads : (j : ℕ) → j < b.size → is_bit_set (some b) j ≡ bit words j
  inside_reads j h =
      let in_range : leb b.size j ≡ false = ground arith in
      rw (is_bit_set-bit b words j v.allocated, in_range)

  -- After `set_bit` at an index below the size, which succeeds and keeps the map valid, the bit at
  -- that index reads as set, and every other bit reads as before.
  pub set_bit_lem : Updated b.size (λ j. is_bit_set (some b) j || i == j) (set_bit (some b) i)
  set_bit_lem = rw (set_bit_at b words i v.allocated small) (
      Updated-set (bit_or (word_at words i) (mask i)) (λ j. is_bit_set (some b) j || i == j)
        (λ j h.
          rw (inside_reads j h, set_word (word_at words i) (i % 64) (j % 64))
            (ground (arith, index_eq i j, same_word j)))
        (λ j h. rw (outside_reads j h) (ground arith)))
    where
      same_word : (j : ℕ) → i / 64 ≡ j / 64 → word_at words i ≡ word_at words j
      same_word j e = rw e

  -- After `clear_bit` at an index below the size, which succeeds and keeps the map valid, the bit at
  -- that index reads as clear, and every other bit reads as before.
  pub clear_bit_lem :
      Updated b.size (λ j. is_bit_set (some b) j && not (i == j)) (clear_bit (some b) i)
  clear_bit_lem = rw (clear_bit_at b words i v.allocated small) (
      Updated-set (bit_and (word_at words i) (complement 64 (mask i)))
        (λ j. is_bit_set (some b) j && not (i == j))
        (λ j h.
          rw
            (
              inside_reads j h,
              clear_word (word_at words i) (i % 64) (j % 64) (omega arith) (omega arith),
            )
            (ground (arith, index_eq i j, same_word j)))
        (λ j h. rw (outside_reads j h)))
    where
      same_word : (j : ℕ) → i / 64 ≡ j / 64 → word_at words i ≡ word_at words j
      same_word j e = rw e
