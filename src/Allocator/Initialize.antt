-- ===== src/Allocator/Initialize.antt =====
-- `init_function` and `initialize_arrays` of src/allocator.c. The memory from the stream's pointer on
-- is a list of elements; a write that is out of it is `none`.
pub mod Filled
pub mod Whole
use likwid_bench.Base.{
  ℕ, zero, suc, ◌+◌, ◌*◌, ◌/◌, ◌%◌, ◌^◌, Bool, true, false, Option, none, some, List, [], ◌∷◌,
  length, set, leb, ltb, ◌==◌, if◌then◌else◌, Result, ok, err, einval,
}
use likwid_bench.Allocator.{
  StreamType, single, double, int, half, int64, StreamConfig, getsizeof, getstreamelems, dimsize,
}

-- An index is passed as a `size_t` and read as an `int`: `none` stands for a negative one.
unfoldable pub as_int : ℕ → Option ℕ
as_int i = let low = i % 2 ^ 32 in if ltb low (2 ^ 31) then some low else none

module _ {V : Type 0} where
  -- `base[index] = *init_val`
  unfoldable pub store : V → ℕ → List V → Option (List V)
  store v index mem = if leb (length mem) index then none else some (set mem index v)

  -- The `for` over `n` indices from `i` on.
  unfoldable pub for_range : (i n : ℕ) → (ℕ → List V → Option (List V)) → List V → Option (List V)
  for_range i zero body mem = some mem
  for_range i (suc n) body mem = elim (body i mem) [
    | none ↦ none
    | some mem' ↦ for_range (suc i) n body mem'
  ]

  -- `INIT_ARRAY` for one, two and three dimensions; the strides are the sizes without offsets.
  unfoldable pub init_1d : V → ℕ → List V → Option (List V)
  unfolding as_int store
  init_1d v i mem = elim (as_int i) [ none ↦ none | some a ↦ store v a mem ]

  unfoldable pub init_2d : V → (stride1 : ℕ) → ℕ → ℕ → List V → Option (List V)
  unfolding as_int store
  init_2d v stride1 i j mem = elim (as_int i) [
    | none ↦ none
    | some a ↦ elim (as_int j) [ none ↦ none | some b ↦ store v (a * stride1 + b) mem ]
  ]

  unfoldable pub init_3d : V → (stride1 stride2 : ℕ) → ℕ → ℕ → ℕ → List V → Option (List V)
  unfolding as_int store
  init_3d v stride1 stride2 i j k mem = elim (as_int i) [
    | none ↦ none
    | some a ↦ elim (as_int j) [
      | none ↦ none
      | some b ↦ elim (as_int k) [
        | none ↦ none
        | some c ↦ store v (a * stride1 + b * stride2 + c) mem
      ]
    ]
  ]

  -- The loops of `_initialize_arrays_1dim` and its kin, over sizes in elements.
  unfoldable pub fill_1dim : V → (elems : ℕ) → List V → Option (List V)
  unfolding for_range init_1d
  fill_1dim v elems mem = for_range 0 elems (init_1d v) mem

  unfoldable pub fill_2dim : V → (size1 size2 : ℕ) → List V → Option (List V)
  unfolding for_range init_2d
  fill_2dim v size1 size2 mem = for_range 0 size1 (λ i. for_range 0 size2 (init_2d v size2 i)) mem

  unfoldable pub fill_3dim : V → (size1 size2 size3 : ℕ) → List V → Option (List V)
  unfolding for_range init_3d
  fill_3dim v size1 size2 size3 mem =
      for_range 0 size1
        (λ i. for_range 0 size2 (λ j. for_range 0 size3 (init_3d v (size2 * size3) size3 i j))) mem

  -- A type that is not known is reported, and nothing is written.
  unfoldable pub unless_half : StreamType → Option (List V) → List V → Option (List V)
  unless_half half filled mem = some mem
  unless_half other filled mem = filled

  -- The loops for the dimensions that `initialize_arrays` knows.
  unfoldable pub fill_dims : ℕ → StreamConfig → V → List V → Option (List V)
  unfolding fill_1dim fill_2dim fill_3dim getstreamelems
  fill_dims (suc zero) s v mem = fill_1dim v (getstreamelems s) mem
  fill_dims (suc (suc zero)) s v mem =
      let size = getsizeof s.type in fill_2dim v (dimsize s 0 / size) (dimsize s 1 / size) mem
  fill_dims (suc (suc (suc zero))) s v mem =
      let size = getsizeof s.type in
      fill_3dim v (dimsize s 0 / size) (dimsize s 1 / size) (dimsize s 2 / size) mem
  fill_dims other s v mem = some mem

  -- The code and the memory that `initialize_arrays` leaves.
  unfoldable pub initialize_arrays : StreamConfig → V → List V → Result (Option (List V))
  unfolding fill_dims unless_half
  initialize_arrays s v mem =
      if leb 1 s.dims
      then (if leb s.dims 3
          then (if s.ptr == 0
              then ok (some mem)
              else ok (unless_half s.type (fill_dims s.dims s v mem) mem))
          else err einval)
      else err einval
