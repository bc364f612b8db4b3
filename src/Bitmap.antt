-- ===== src/Bitmap.antt =====
-- src/bitmap.c on an LP64 platform: a bitmap of 64-bit words. A pointer argument is an Option; a
-- function that writes through it returns the new `*bitmap`.
pub mod Bits
pub mod Create
mod Tests
use Prim.Native.Nat.{bit_and, bit_or}
use likwid_bench.Base.{
  ℕ, suc, ◌+◌, ◌-◌, ◌*◌, ◌/◌, ◌%◌, ◌^◌, Bool, true, false, not, ◌&&◌, ◌||◌, Option, none, some,
  List, ok, err, einval, efault, enomem, Result, ltb, leb, ◌==◌, if◌then◌else◌, set, get_or,
  replicate,
}
use likwid_bench.Base.Bits.{complement}

pub record Bitmap : Type 0 where
  pub words : Option (List ℕ)
  pub size : ℕ
  pub alignment : ℕ

abbrev pub Status : Type 0
Status = Result (Unit {0})

abbrev pub bits_per_element : ℕ
bits_per_element = 64

-- `(size + BITS_PER_ELEMENT - 1) / BITS_PER_ELEMENT` in `size_t`: the sum wraps.
abbrev pub data_size : ℕ → ℕ
data_size size = (size + bits_per_element - 1) % 2 ^ 64 / bits_per_element

-- `alignment == 0 || (alignment & (alignment - 1)) != 0`
abbrev pub bad_alignment : ℕ → Bool
bad_alignment alignment = alignment == 0 || not (bit_and alignment (alignment - 1) == 0)

-- The part of `create_bitmap` behind the guards on the pointer and the size.
create_fresh : (ℕ → ℕ → Bool) → ℕ → ℕ → Bitmap → Option (List ℕ) → Status × Option Bitmap
create_fresh aligned_alloc size alignment b (some words) = (err efault, some b)
create_fresh aligned_alloc size alignment b none =
    if bad_alignment alignment
    then (err einval, some b)
    else if aligned_alloc alignment (data_size size * 8)
    then (
      ok tt,
      some (record {
        words = some (replicate (data_size size) 0);
        size = size;
        alignment = alignment;
      }),
    )
    else (err enomem, some b)

-- `aligned_alloc` says of an alignment and a number of bytes whether the allocation succeeds; the
-- bytes are cleared by `memset` at once.
unfoldable pub create : (ℕ → ℕ → Bool) → ℕ → ℕ → Option Bitmap → Status × Option Bitmap
unfolding create_fresh
create aligned_alloc size alignment none = (err einval, none)
create aligned_alloc size alignment (some b) =
    if size == 0 then (err einval, some b) else create_fresh aligned_alloc size alignment b b.words

pub destroy_words : Bitmap → Option (List ℕ) → Bitmap
destroy_words b none = b
destroy_words b (some words) = record { words = none; size = 0; alignment = 0 }

unfoldable pub destroy : Option Bitmap → Option Bitmap
unfolding destroy_words
destroy none = none
destroy (some b) = some (destroy_words b b.words)

-- `1ULL << (index % BITS_PER_ELEMENT)`
abbrev pub mask : ℕ → ℕ
mask index = 2 ^ (index % bits_per_element)

abbrev pub word_at : List ℕ → ℕ → ℕ
word_at words index = get_or words (index / bits_per_element) 0

-- The three accessors behind the guard on the pointer: `words` is what `bitmap->data` holds.
set_in : Bitmap → ℕ → Option (List ℕ) → Status × Option Bitmap
set_in b index none = (err einval, some b)
set_in b index (some words) = if leb b.size index then (err einval, some b) else (
  ok tt,
  some (record b {
    words = some (set words (index / bits_per_element) (bit_or (word_at words index) (mask index)));
  }),
)

clear_in : Bitmap → ℕ → Option (List ℕ) → Status × Option Bitmap
clear_in b index none = (err einval, some b)
clear_in b index (some words) = if leb b.size index then (err einval, some b) else (
  ok tt,
  some (record b {
    words = some (
        set words (index / bits_per_element)
          (bit_and (word_at words index) (complement 64 (mask index))));
  }),
)

test_in : Bitmap → ℕ → Option (List ℕ) → Bool
test_in b index none = false
test_in b index (some words) =
    if leb b.size index then false else not (bit_and (word_at words index) (mask index) == 0)

unfoldable pub set_bit : Option Bitmap → ℕ → Status × Option Bitmap
unfolding set_in
set_bit none index = (err einval, none)
set_bit (some b) index = set_in b index b.words

unfoldable pub clear_bit : Option Bitmap → ℕ → Status × Option Bitmap
unfolding clear_in
clear_bit none index = (err einval, none)
clear_bit (some b) index = clear_in b index b.words

unfoldable pub is_bit_set : Option Bitmap → ℕ → Bool
unfolding test_in
is_bit_set none index = false
is_bit_set (some b) index = test_in b index b.words
