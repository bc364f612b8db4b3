-- ===== src/Threads/Parts.antt =====
-- The part of each stream that a worker of src/threads.c gets: `_linear_offset`, `_ptr_in_range`, and
-- the loops at the end of `update_threads` that check the parts. Sizes and addresses are words.
pub mod Offsets
pub mod Ranges
use likwid_bench.Base.{
  ℕ, zero, suc, ◌+◌, ◌*◌, ◌%◌, ◌^◌, Bool, true, false, List, [], ◌∷◌, get_or, leb, ltb, ◌==◌,
  if◌then◌else◌, Result, ok, err, einval,
}
use likwid_bench.Allocator.{StreamConfig, getsizeof, getstreambytes}

abbrev pub word : ℕ
word = 2 ^ 64

-- The loop of `_linear_offset`, from the last of `d` dimensions to the first.
unfoldable pub offset_loop : (offsets dimsizes : List ℕ) → (d off stride : ℕ) → ℕ
offset_loop offsets dimsizes zero off stride = off
offset_loop offsets dimsizes (suc d) off stride =
    offset_loop offsets dimsizes d ((off + get_or offsets d 0 * stride) % word)
      (stride * get_or dimsizes d 0 % word)

unfoldable pub linear_offset : (ndims : ℕ) → (offsets dimsizes : List ℕ) → (size : ℕ) → ℕ
unfolding offset_loop
linear_offset ndims offsets dimsizes size = offset_loop offsets dimsizes ndims 0 1 * size % word

unfoldable pub ptr_in_range : (base_ptr elems_size off_ptr size : ℕ) → Bool
ptr_in_range base_ptr elems_size off_ptr size =
    if ltb off_ptr base_ptr
    then false
    else if ltb ((off_ptr + size) % word) off_ptr
    then false
    else if ltb ((base_ptr + elems_size) % word) ((off_ptr + size) % word)
    then false
    else true

-- `RuntimeThreadStreamConfig`, with the stream that it is a part of.
pub record Part : Type 0 where
  pub stream : StreamConfig
  pub tsizes : List ℕ
  pub toffsets : List ℕ

-- `str->tstream_ptr`
unfoldable pub tstream_ptr : Part → ℕ
unfolding linear_offset getsizeof
tstream_ptr p =
    (p.stream.ptr + linear_offset p.stream.dims p.toffsets p.tsizes (getsizeof p.stream.type))
    % word

-- The loop over the dimensions of one part.
unfoldable pub check_dims : Part → List ℕ → Result (Unit {0})
unfolding ptr_in_range tstream_ptr getstreambytes getsizeof
check_dims p [] = ok tt
check_dims p (tsize ∷ tsizes) =
    let rest = check_dims p tsizes in
    if tsize == 0
    then err einval
    else if ptr_in_range p.stream.ptr (getstreambytes p.stream) (tstream_ptr p)
        (tsize * getsizeof p.stream.type % word)
    then rest
    else err einval

-- The loops over the groups, their workers and their streams, as one list of parts.
unfoldable pub check_parts : List Part → Result (Unit {0})
unfolding check_dims
check_parts [] = ok tt
check_parts (p ∷ ps) = elim (check_dims p p.tsizes) [ err e ↦ err e | ok done ↦ check_parts ps ]
