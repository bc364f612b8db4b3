-- ===== src/Bitmask.antt =====
-- include/bitmask.h: rounding of sizes to multiples of `nbits`, in general and for powers of two. A
-- `size_t` has 64 bits. `out` says whether the pointer for the result is not NULL.
-- `Rounding` has what the general functions compute, `Masks` the masks of the others.
pub mod Masks
pub mod Rounding
pub mod Pow2
mod Tests
use Prim.Native.Nat.{bit_and}
use likwid_bench.Base.{
  ℕ, ◌+◌, ◌-◌, ◌*◌, ◌/◌, ◌%◌, Bool, true, false, not, ◌||◌, ltb, leb, ◌==◌, if◌then◌else◌, Result,
  ok, err, einval, eoverflow,
}

-- SIZE_MAX
abbrev pub size_max : ℕ
size_max = 18446744073709551615

-- Sum, difference and product of `size_t`.
abbrev pub wrap : ℕ → ℕ
wrap n = n % 18446744073709551616

abbrev pub sub : ℕ → ℕ → ℕ
sub a b = wrap (a + (18446744073709551616 - b))

-- `~n`
abbrev pub invert : ℕ → ℕ
invert n = size_max - n

-- `!out || nbits == 0`
abbrev pub is_invalid : Bool → ℕ → Bool
is_invalid out nbits = not out || nbits == 0

unfoldable pub is_multipleof_nbits : ℕ → ℕ → Result Bool
is_multipleof_nbits n nbits = if nbits == 0 then err einval else ok (n % nbits == 0)

unfoldable pub roundup_nbits : Bool → ℕ → ℕ → Result ℕ
roundup_nbits out n nbits =
    if is_invalid out nbits
    then err einval
    else if ltb (sub size_max (sub nbits 1)) n
    then err eoverflow
    else ok (wrap (sub (wrap (n + nbits)) 1 / nbits * nbits))

unfoldable pub rounddown_nbits : Bool → ℕ → ℕ → Result ℕ
rounddown_nbits out n nbits =
    if is_invalid out nbits then err einval else ok (wrap (n / nbits * nbits))

unfoldable pub roundnearest_nbits : Bool → ℕ → ℕ → Result ℕ
roundnearest_nbits out n nbits =
    if is_invalid out nbits
    then err einval
    else if ltb (size_max / 2) nbits || leb (sub size_max (nbits / 2)) n
    then err eoverflow
    else ok (wrap (wrap (n + nbits / 2) / nbits * nbits))

-- `nbits & (nbits - 1)`, for `nbits` above 0: 0 for a power of two.
abbrev pub is_not_pow2 : ℕ → Bool
is_not_pow2 nbits = not (bit_and nbits (sub nbits 1) == 0)

unfoldable pub is_multipleof_pow2 : ℕ → ℕ → Result Bool
is_multipleof_pow2 n nbits =
    if nbits == 0 || is_not_pow2 nbits then err einval else ok (bit_and n (sub nbits 1) == 0)

unfoldable pub roundup_nbits_pow2 : Bool → ℕ → ℕ → Result ℕ
roundup_nbits_pow2 out n nbits =
    if is_invalid out nbits || is_not_pow2 nbits
    then err einval
    else if ltb (sub size_max (sub nbits 1)) n
    then err eoverflow
    else ok (bit_and (sub (wrap (n + nbits)) 1) (invert (sub nbits 1)))

unfoldable pub rounddown_nbits_pow2 : Bool → ℕ → ℕ → Result ℕ
rounddown_nbits_pow2 out n nbits =
    if is_invalid out nbits || is_not_pow2 nbits
    then err einval
    else ok (bit_and n (invert (sub nbits 1)))

unfoldable pub roundnearest_nbits_pow2 : Bool → ℕ → ℕ → Result ℕ
roundnearest_nbits_pow2 out n nbits =
    if is_invalid out nbits || is_not_pow2 nbits
    then err einval
    else if ltb (sub size_max (nbits / 2)) n
    then err eoverflow
    else ok (bit_and (wrap (n + nbits / 2)) (invert (sub nbits 1)))
