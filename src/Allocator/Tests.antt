-- ===== src/Allocator/Tests.antt =====
-- Streams of src/allocator.c, and the properties at concrete inputs.
use likwid_bench.Base.{
  err, einval, ℕ, ◌≤◌, ◌≡◌, ◌≢◌, refl, true, Option, none, some, List, [], ◌∷◌, ltb, if◌then◌else◌,
  ok, length, arith,
}
use likwid_bench.Base.Int.{pos}
use likwid_bench.Bitmap.{is_bit_set}
use likwid_bench.Allocator.{
  double, half, StreamConfig, getsizeof, elems_loop, getstreamelems, checked, place, alloc_2dim,
  by_type, allocate_dims, allocate_arrays, release_arrays,
}
use likwid_bench.Allocator.Blocks.{InMemory}
use likwid_bench.Allocator.Placed.{Dimension}
use likwid_bench.Allocator.Arrays.{Sound, Allocated, two, allocate_arrays-Placed}
use likwid_bench.Allocator.Initialize.{
  as_int, store, for_range, init_2d, fill_2dim, unless_half, fill_dims, initialize_arrays,
}
use likwid_bench.Allocator.Initialize.Filled.{filled}
use likwid_bench.Allocator.Initialize.Whole.{Extent, initialize_arrays-filled}

-- Two rows of three elements, one row and one element into the block.
abbrev matrix : StreamConfig
matrix = record {
  named = true;
  id = pos 0;
  type = double;
  dims = 2;
  dimsizes = 16 ∷ 24 ∷ 0 ∷ [];
  offsets = pos 1 ∷ pos 1 ∷ pos 0 ∷ [];
  flags = record { words = none; size = 0; alignment = 0 };
  base_ptr = 0;
  ptr = 0;
}

-- One block, of up to 4096 bytes.
abbrev memalign : (alignment size : ℕ) → Option ℕ
memalign alignment size = if ltb size 4096 then some 4096 else none

memalign-InMemory : InMemory 64 memalign
memalign-InMemory size base e = ground arith

matrix-0 : Dimension matrix 0 1
unfolding getsizeof
matrix-0 = record { offset_k = refl; below = omega arith; holds = omega arith }

matrix-1 : Dimension matrix 1 1
unfolding getsizeof
matrix-1 = record { offset_k = refl; below = omega arith; holds = omega arith }

double_known : double ≢ half
double_known e = cc

matrix-Sound : Sound matrix
unfolding getsizeof is_bit_set
matrix-Sound = record {
  is_named = refl;
  number = 0;
  has_id = refl;
  known = double_known;
  shape = two 1 1 refl refl matrix-0 matrix-1 (omega arith);
}

matrix_allocated :
    allocate_arrays 64 memalign matrix ≡ ok (record matrix { base_ptr = 4096; ptr = 4136 })
unfolding allocate_arrays allocate_dims by_type alloc_2dim checked place is_bit_set
matrix_allocated = refl

-- A type that is not known is no error, and gets no memory.
half_unallocated :
    allocate_arrays 64 memalign (record matrix { type = half }) ≡ ok (record matrix { type = half })
unfolding allocate_arrays allocate_dims by_type is_bit_set
half_unallocated = refl

matrix_released :
    release_arrays (record matrix { base_ptr = 4096; ptr = 4136 }) ≡ (matrix, some 4096)
unfolding release_arrays is_bit_set
matrix_released = refl

-- With the flag of one dimension set, the same stream is refused.
flagged_refused :
    allocate_arrays 64 memalign
      (record matrix { flags = record { words = some (1 ∷ []); size = 1; alignment = 0 } })
    ≡ err einval
unfolding allocate_arrays is_bit_set
flagged_refused = refl

allocate_arrays-Placed_example : Allocated 64 memalign matrix (allocate_arrays 64 memalign matrix)
allocate_arrays-Placed_example =
    allocate_arrays-Placed 64 memalign matrix memalign-InMemory matrix-Sound

abbrev placed : StreamConfig
placed = record matrix { base_ptr = 4096; ptr = 4136 }

abbrev memory : List ℕ
memory = 1 ∷ 2 ∷ 3 ∷ 4 ∷ 5 ∷ 6 ∷ 7 ∷ []

memory_filled : initialize_arrays placed 9 memory ≡ ok (some (9 ∷ 9 ∷ 9 ∷ 9 ∷ 9 ∷ 9 ∷ 7 ∷ []))
unfolding initialize_arrays unless_half fill_dims fill_2dim for_range init_2d as_int store getsizeof
memory_filled = refl

six_fit : getstreamelems placed ≤ length memory
unfolding getstreamelems elems_loop getsizeof
six_fit = omega arith

initialize_arrays-filled_example :
    initialize_arrays placed 9 memory ≡ ok (some (filled 9 (getstreamelems placed) memory))
unfolding getsizeof
initialize_arrays-filled_example =
    initialize_arrays-filled placed 9 memory double_known (λ e. omega arith)
      (Extent.two refl refl (omega arith, omega arith) (omega arith, omega arith)) six_fit
