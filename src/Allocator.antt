-- ===== src/Allocator.antt =====
-- src/allocator.c: the size of a stream, the memory that it gets, and its initialization.
pub mod Blocks
pub mod Placed
pub mod Arrays
pub mod Initialize
mod Tests
use likwid_bench.Base.{
  ℕ, zero, suc, ◌+◌, ◌-◌, ◌*◌, ◌/◌, ◌%◌, ◌^◌, Bool, true, false, ◌&&◌, ◌||◌, Option, none, some,
  List, [], ◌∷◌, get_or, take, leb, ◌==◌, if◌then◌else◌, Result, ok, err, einval, enomem,
}
use likwid_bench.Base.Int.{ℤ, pos, negsuc}
use likwid_bench.Bitmap.{Bitmap, is_bit_set}

-- `TestConfigStreamType`
pub data StreamType : Type 0 where
  single double int half int64 : StreamType

-- `RuntimeStreamConfig`, without the initialization; `named` is `name != NULL`.
pub record StreamConfig : Type 0 where
  pub named : Bool
  pub id : ℤ
  pub type : StreamType
  pub dims : ℕ
  pub dimsizes : List ℕ
  pub offsets : List ℤ
  pub flags : Bitmap
  pub base_ptr : ℕ
  pub ptr : ℕ

-- `size_t`
abbrev pub word : ℕ
word = 2 ^ 64

-- `-EINVAL`, returned as a `size_t`
abbrev pub einval_size : ℕ
einval_size = word - 22

-- Without `WITH_HALF_PRECISION`, a half is an unknown type.
unfoldable pub getsizeof : StreamType → ℕ
getsizeof single = 4
getsizeof double = 8
getsizeof int = 4
getsizeof int64 = 8
getsizeof half = einval_size

-- The loop over the dimensions; `none` is its early return.
unfoldable pub elems_loop : (size : ℕ) → List ℕ → (total : ℕ) → Option ℕ
elems_loop size [] total = some total
elems_loop size (d ∷ ds) total =
    let rest = elems_loop size ds (total * (d / size) % word) in if d == 0 then none else rest

unfoldable pub getstreamelems : StreamConfig → ℕ
unfolding elems_loop getsizeof
getstreamelems s = elim (elems_loop (getsizeof s.type) (take s.dims s.dimsizes) 1) [
  | none ↦ einval_size
  | some total ↦ total
]

unfoldable pub getstreambytes : StreamConfig → ℕ
unfolding elems_loop getsizeof
getstreambytes s =
    if s.dims == 0
    then einval_size
    else (elim (elems_loop (getsizeof s.type) (take s.dims s.dimsizes) 1) [
      | none ↦ einval_size
      | some total ↦ total * getsizeof s.type % word
    ])

-- A dimension's size in bytes and its offset.
abbrev pub dimsize : StreamConfig → ℕ → ℕ
dimsize s k = get_or s.dimsizes k 0

abbrev pub offset : StreamConfig → ℕ → ℤ
offset s k = get_or s.offsets k (pos 0)

-- An offset that is not negative, and below the size of its dimension.
unfoldable pub checked : StreamConfig → ℕ → Option ℕ
checked s k = elim (offset s k) [
  | pos o ↦ if leb (dimsize s k) o then none else some o
  | negsuc o ↦ none
]

-- `cl_size` is the line size of the cache, and `posix_memalign` gives the address of a block.
module _ (cl_size : ℕ) (posix_memalign : (alignment size : ℕ) → Option ℕ) where
  -- The end of each case of the allocation: `msize` bytes, and the stream `shift` elements in.
  unfoldable pub place : StreamConfig → (size msize shift : ℕ) → Result StreamConfig
  place s size msize shift =
      if msize == 0 then err einval else (elim (posix_memalign cl_size msize) [
        | none ↦ err enomem
        | some base ↦ ok (record s { base_ptr = base; ptr = (base + shift * size) % word })
      ])

  unfoldable pub alloc_1dim : StreamConfig → (size : ℕ) → Result StreamConfig
  unfolding place checked getstreamelems
  alloc_1dim s size = elim (checked s 0) [
    | none ↦ err einval
    | some o ↦ place s size ((getstreamelems s + o) * size % word) o
  ]

  unfoldable pub alloc_2dim : StreamConfig → (size : ℕ) → Result StreamConfig
  unfolding place checked
  alloc_2dim s size = elim (checked s 0) [
    | none ↦ err einval
    | some o1 ↦ elim (checked s 1) [
      | none ↦ err einval
      | some o2 ↦
          let s1 = dimsize s 0 / size in
          let s2 = dimsize s 1 / size in
          if (o1 + s1) % word == 0
          then err einval
          else place s size ((o2 + s2) * (o1 + s1) * size % word) (o1 * (s2 + o2) + o2)
    ]
  ]

  unfoldable pub alloc_3dim : StreamConfig → (size : ℕ) → Result StreamConfig
  unfolding place checked
  alloc_3dim s size = elim (checked s 0) [
    | none ↦ err einval
    | some o1 ↦ elim (checked s 1) [
      | none ↦ err einval
      | some o2 ↦ elim (checked s 2) [
        | none ↦ err einval
        | some o3 ↦
            let s1 = dimsize s 0 / size in
            let s2 = dimsize s 1 / size in
            let s3 = dimsize s 2 / size in
            if (s1 + o1) % word == 0 || (s1 + o1) * (s2 + o2) % word == 0
            then err einval
            else place s size ((s1 + o1) * (s2 + o2) * (s3 + o3) * size % word)
                (o1 * (s2 + o2) * (s3 + o3) + o2 * (s3 + o3) + o3)
      ]
    ]
  ]

  -- The `switch` on the type: an unknown one is reported, and no error.
  unfoldable pub by_type :
      (StreamConfig → ℕ → Result StreamConfig) → StreamConfig → StreamType → Result StreamConfig
  by_type alloc s single = alloc s 4
  by_type alloc s double = alloc s 8
  by_type alloc s int = alloc s 4
  by_type alloc s int64 = alloc s 8
  by_type alloc s half = ok s

  -- `_allocate_arrays_1dim` and its kin, with the test of the dimensions at their head.
  unfoldable pub allocate_dims : ℕ → StreamConfig → Result StreamConfig
  unfolding by_type alloc_1dim alloc_2dim alloc_3dim
  allocate_dims (suc zero) s = if dimsize s 0 == 0 then err einval else by_type alloc_1dim s s.type
  allocate_dims (suc (suc zero)) s =
      if dimsize s 0 == 0 || dimsize s 1 == 0 then err einval else by_type alloc_2dim s s.type
  allocate_dims (suc (suc (suc zero))) s =
      if dimsize s 0 == 0 || dimsize s 1 == 0 || dimsize s 2 == 0
      then err einval
      else by_type alloc_3dim s s.type
  allocate_dims other s = err einval

  unfoldable pub allocate_arrays : StreamConfig → Result StreamConfig
  unfolding allocate_dims is_bit_set
  allocate_arrays s =
      if s.named
      then (elim s.id [
        | negsuc n ↦ err einval
        | pos n ↦
            if s.dims == 1
            then allocate_dims 1 s
            else if is_bit_set (some s.flags) 0
            then err einval
            else allocate_dims s.dims s
      ])
      else err einval

abbrev pub not_half : StreamType → Bool
not_half half = false
not_half other = true

-- `release_arrays`, which gives back the block and forgets both pointers; with a number of dimensions
-- or a type that it does not know it does nothing. The second component is what `free` gets.
unfoldable pub release_arrays : StreamConfig → StreamConfig × Option ℕ
unfolding is_bit_set
release_arrays s =
    if s.base_ptr == 0
    then (s, none)
    else if s.dims == 1
        || is_bit_set (some s.flags) 0
        || (not_half s.type && (s.dims == 2 || s.dims == 3))
    then (record s { base_ptr = 0; ptr = 0 }, some s.base_ptr)
    else (s, none)
