-- ===== src/Bitmap/Create.antt =====
-- `create_bitmap` and `destroy_bitmap` of src/bitmap.c: what a created map reads, on every branch.
use Prim.Native.Nat.{bit_and, bit_and-bitwise}
use mathlib.Core.Option.{some-injective}
use likwid_bench.Base.{
  ℕ, zero, suc, ◌-◌, ◌*◌, ◌/◌, ◌%◌, ◌^◌, ◌≤◌, ◌<◌, ◌≡◌, refl, ap, Bool, true, false, get_or, Option,
  none, some, List, [], arith, ok, err, Errno, length, replicate, length-replicate,
}
use likwid_bench.Bitmap.{
  Bitmap, data_size, bad_alignment, create, set_bit, set_in, destroy, destroy_words, is_bit_set,
}
use likwid_bench.Bitmap.Bits.{IsValid}

zero-bit_and : (a : ℕ) → bit_and 0 a ≡ 0
zero-bit_and a = bit_and-bitwise 0 a

replicate_zero_get : (n i : ℕ) → get_or {A = ℕ} (replicate n 0) i 0 ≡ 0
replicate_zero_get zero i = refl
replicate_zero_get (suc n) zero = refl
replicate_zero_get (suc n) (suc i) = replicate_zero_get n i

-- The map that a successful `create_bitmap` leaves.
abbrev pub fresh : ℕ → ℕ → Bitmap
fresh size alignment = record {
  words = some (replicate (data_size size) 0);
  size = size;
  alignment = alignment;
}

module _ (aligned_alloc : ℕ → ℕ → Bool) (size alignment : ℕ) (b : Bitmap) where
  create-fresh_eq :
      0 < size
      → b.words ≡ none
      → bad_alignment alignment ≡ false
      → aligned_alloc alignment (data_size size * 8) ≡ true
      → create aligned_alloc size alignment (some b) ≡ (ok tt, some (fresh size alignment))
  unfolding create
  create-fresh_eq p e a m = ground arith

  -- On every error `create_bitmap` leaves the map as it was.
  create_error_unchanged :
      (e : Errno) (t : Option Bitmap)
      → create aligned_alloc size alignment (some b) ≡ (err e, t)
      → t ≡ some b
  unfolding create
  create_error_unchanged e t h = ground arith

fresh_clear : (size alignment j : ℕ) → is_bit_set (some (fresh size alignment)) j ≡ false
unfolding is_bit_set
fresh_clear size alignment j =
    ground (arith, replicate_zero_get (data_size size) (j / 64), zero-bit_and (2 ^ (j % 64)))

-- A bitmap of at most SIZE_MAX - 63 bits, created over an empty one with a power of two for an
-- alignment and a successful allocation, is valid, has the size asked, and no bit of it is set.
pub create_lem :
    (aligned_alloc : ℕ → ℕ → Bool) (size alignment : ℕ) (b : Bitmap)
    → 0 < size
    → size ≤ 2 ^ 64 - 64
    → b.words ≡ none
    → bad_alignment alignment ≡ false
    → aligned_alloc alignment (data_size size * 8) ≡ true
    → (create aligned_alloc size alignment (some b) ≡ (ok tt, some (fresh size alignment)))
      × IsValid (fresh size alignment) (replicate (data_size size) 0)
      × ((j : ℕ) → is_bit_set (some (fresh size alignment)) j ≡ false)
create_lem aligned_alloc size alignment b p small e a m = (
  create-fresh_eq aligned_alloc size alignment b p e a m,
  record {
    allocated = refl;
    covers = rw (length-replicate {A = ℕ} (data_size size) 0) (omega arith);
  },
  fresh_clear size alignment,
)

set_bit-accepted :
    (b : Bitmap) (words : List ℕ) (index : ℕ)
    → b.words ≡ some words
    → index < b.size
    → (set_bit (some b) index).0 ≡ ok tt
unfolding set_bit set_in
set_bit-accepted b words index e h = ground arith

-- For the 63 sizes above that the `size_t` sum wraps: over an empty map, with a power of two for an
-- alignment and a successful allocation of no bytes, `create_bitmap` returns 0 and leaves a map of the
-- size asked without a word, which is not valid; and `set_bit` returns 0 for every index below that
-- size, though there is no word for it to write.
pub create_wraps :
    (aligned_alloc : ℕ → ℕ → Bool) (size alignment : ℕ) (b : Bitmap) (index : ℕ)
    → 2 ^ 64 - 64 < size
    → size < 2 ^ 64
    → b.words ≡ none
    → bad_alignment alignment ≡ false
    → aligned_alloc alignment 0 ≡ true
    → index < size
    → (create aligned_alloc size alignment (some b) ≡ (ok tt, some (fresh size alignment)))
      × ((fresh size alignment).words ≡ some [])
      × ((words : List ℕ) → ¬ IsValid (fresh size alignment) words)
      × ((set_bit (some (fresh size alignment)) index).0 ≡ ok tt)
create_wraps aligned_alloc size alignment b index big w e a m below = (
  create-fresh_eq aligned_alloc size alignment b (omega arith) e a (rw none_needed m),
  ap (λ n. some (replicate {A = ℕ} n 0)) none_needed,
  λ words v. omega (arith, v.covers, no_words words v.allocated),
  set_bit-accepted (fresh size alignment) (replicate (data_size size) 0) index refl below,
)
  where
    none_needed : data_size size ≡ 0
    none_needed = omega arith

    no_words :
        (words : List ℕ) → some (replicate (data_size size) 0) ≡ some words → length words ≡ 0
    no_words words e =
        omega (arith, ap length (some-injective _ _ e), length-replicate {A = ℕ} (data_size size) 0)

destroy_words-none :
    (b : Bitmap) (words : Option (List ℕ)) → b.words ≡ words → (destroy_words b words).words ≡ none
unfolding destroy_words
destroy_words-none b none e = e
destroy_words-none b (some words) e = refl

-- After `destroy_bitmap` nothing is allocated, no bit reads as set, and a second call changes nothing.
destroy_lem :
    (b : Bitmap)
    → (t : Bitmap) × (destroy (some b) ≡ some t)
      × (t.words ≡ none)
      × ((j : ℕ) → is_bit_set (some t) j ≡ false)
      × (destroy (some t) ≡ some t)
unfolding destroy is_bit_set
destroy_lem b =
    let t = destroy_words b b.words in
    let e = destroy_words-none b b.words refl in (t, refl, e, (λ j. rw e), rw e)
