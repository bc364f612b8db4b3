-- ===== src/Allocator/Arrays.antt =====
-- `allocate_arrays` of src/allocator.c, over the dimensions and the types.
use mathlib.Core.Path.{subst}
use likwid_bench.Base.{
  ℕ, ◌+◌, ◌*◌, ◌/◌, ◌<◌, ◌≡◌, ◌≢◌, refl, sym, ◌∙◌, ap, true, false, Option, some, [], ◌∷◌, take,
  ◌==◌, ==→eq, ==→ne, Bool-cases, inl, inr, ◌⊎◌, Result, err, einval, arith,
}
use likwid_bench.Base.Int.{pos}
use likwid_bench.Bitmap.{is_bit_set}
use likwid_bench.Allocator.{
  StreamType, single, double, int, half, int64, StreamConfig, word, getsizeof, dimsize, alloc_1dim,
  alloc_2dim, alloc_3dim, by_type, allocate_dims, allocate_arrays,
}
use likwid_bench.Allocator.Blocks.{Placed, InMemory}
use likwid_bench.Allocator.Placed.{
  Dimension, alloc_1dim-Placed, alloc_2dim-Placed, alloc_3dim-Placed,
}

-- A stream of one to three dimensions, whose block has fewer bytes than a `size_t` counts.
pub data Shape (s : StreamConfig) : Type 0 where
  one :
      (o : ℕ)
      → s.dims ≡ 1
      → take s.dims s.dimsizes ≡ dimsize s 0 ∷ []
      → Dimension s 0 o
      → (dimsize s 0 / getsizeof s.type + o) * getsizeof s.type < word
      → Shape s
  two :
      (o1 o2 : ℕ)
      → s.dims ≡ 2
      → take s.dims s.dimsizes ≡ dimsize s 0 ∷ dimsize s 1 ∷ []
      → Dimension s 0 o1
      → Dimension s 1 o2
      → (o2 + dimsize s 1 / getsizeof s.type)
          * (o1 + dimsize s 0 / getsizeof s.type)
          * getsizeof s.type
        < word
      → Shape s
  three :
      (o1 o2 o3 : ℕ)
      → s.dims ≡ 3
      → take s.dims s.dimsizes ≡ dimsize s 0 ∷ dimsize s 1 ∷ dimsize s 2 ∷ []
      → Dimension s 0 o1
      → Dimension s 1 o2
      → Dimension s 2 o3
      → (dimsize s 0 / getsizeof s.type + o1)
          * (dimsize s 1 / getsizeof s.type + o2)
          * (dimsize s 2 / getsizeof s.type + o3)
          * getsizeof s.type
        < word
      → Shape s

by_type-size :
    (cl_size : ℕ) (posix_memalign : (alignment size : ℕ) → Option ℕ)
    (alloc : StreamConfig → ℕ → Result StreamConfig) (s : StreamConfig) (t : StreamType)
    → t ≢ half
    → by_type cl_size posix_memalign alloc s t ≡ alloc s (getsizeof t)
unfolding by_type getsizeof
by_type-size cl posix alloc s single h = refl
by_type-size cl posix alloc s double h = refl
by_type-size cl posix alloc s int h = refl
by_type-size cl posix alloc s half h = absurd (h refl)
by_type-size cl posix alloc s int64 h = refl

-- The conditions that the fields of a stream have to meet.
pub record Sound (s : StreamConfig) : Type 0 where
  pub is_named : s.named ≡ true
  pub number : ℕ
  pub has_id : s.id ≡ pos number
  pub known : s.type ≢ half
  pub shape : Shape s

module _ (cl_size : ℕ) (posix_memalign : (alignment size : ℕ) → Option ℕ) where
  allocate_1dim :
      (s : StreamConfig)
      → Sound s
      → s.dims ≡ 1
      → allocate_arrays cl_size posix_memalign s ≡ allocate_dims cl_size posix_memalign 1 s
  unfolding allocate_arrays
  allocate_1dim s sound e =
      let test : (s.dims == 1) ≡ true = ground arith in
      simp (sound.is_named, sound.has_id, test, allocate_arrays)

  allocate_ndim :
      (s : StreamConfig) (k : ℕ)
      → Sound s
      → 1 < k
      → s.dims ≡ k
      → is_bit_set (some s.flags) 0 ≡ false
      → allocate_arrays cl_size posix_memalign s ≡ allocate_dims cl_size posix_memalign k s
  unfolding allocate_arrays
  allocate_ndim s k sound h e unflagged =
      let test : (s.dims == 1) ≡ false = ground arith in
      simp (sound.is_named, sound.has_id, test, unflagged, allocate_arrays)
        (ap (λ d. allocate_dims cl_size posix_memalign d s) e)

  unflagged :
      (s : StreamConfig) (k : ℕ)
      → 1 < k
      → s.dims ≡ k
      → (s.dims ≡ 1) ⊎ (is_bit_set (some s.flags) 0 ≡ false)
      → is_bit_set (some s.flags) 0 ≡ false
  unflagged s k h e (inl same) = absurd (omega arith)
  unflagged s k h e (inr clear) = clear

  nonzero : (s : StreamConfig) (k o : ℕ) → Dimension s k o → (dimsize s k == 0) ≡ false
  nonzero s k o x = ground (arith, x.below)

  allocate_flagged :
      (s : StreamConfig)
      → Sound s
      → s.dims ≢ 1
      → is_bit_set (some s.flags) 0 ≡ true
      → allocate_arrays cl_size posix_memalign s ≡ err einval
  unfolding allocate_arrays
  allocate_flagged s sound many flagged =
      let test : (s.dims == 1) ≡ false = ground (arith, many) in
      simp (sound.is_named, sound.has_id, test, flagged, allocate_arrays)

  shape-Placed :
      (s : StreamConfig)
      → InMemory cl_size posix_memalign
      → Sound s
      → (s.dims ≡ 1) ⊎ (is_bit_set (some s.flags) 0 ≡ false)
      → Shape s
      → Placed cl_size posix_memalign (allocate_arrays cl_size posix_memalign s)
  unfolding allocate_dims
  shape-Placed s memory sound flags (one o dims sizes x small) =
      let opened = allocate_1dim s sound dims in
      let sized : allocate_dims cl_size posix_memalign 1 s
          ≡ alloc_1dim cl_size posix_memalign s (getsizeof s.type) =
        rw (nonzero s 0 o x, allocate_dims)
          (by_type-size cl_size posix_memalign (alloc_1dim cl_size posix_memalign) s s.type
            sound.known) in
      subst (Placed cl_size posix_memalign) (sym (opened ∙ sized))
        (alloc_1dim-Placed cl_size posix_memalign memory s o x (omega arith) sizes small)
  shape-Placed s memory sound flags (two o1 o2 dims sizes x y small) =
      let opened =
        allocate_ndim s 2 sound (omega arith) dims (unflagged s 2 (omega arith) dims flags) in
      let sized : allocate_dims cl_size posix_memalign 2 s
          ≡ alloc_2dim cl_size posix_memalign s (getsizeof s.type) =
        rw (nonzero s 0 o1 x, nonzero s 1 o2 y, allocate_dims)
          (by_type-size cl_size posix_memalign (alloc_2dim cl_size posix_memalign) s s.type
            sound.known) in
      subst (Placed cl_size posix_memalign) (sym (opened ∙ sized))
        (alloc_2dim-Placed cl_size posix_memalign memory s o1 o2 x y (omega arith) sizes small)
  shape-Placed s memory sound flags (three o1 o2 o3 dims sizes x y z small) =
      let opened =
        allocate_ndim s 3 sound (omega arith) dims (unflagged s 3 (omega arith) dims flags) in
      let sized : allocate_dims cl_size posix_memalign 3 s
          ≡ alloc_3dim cl_size posix_memalign s (getsizeof s.type) =
        rw (nonzero s 0 o1 x, nonzero s 1 o2 y, nonzero s 2 o3 z, allocate_dims)
          (by_type-size cl_size posix_memalign (alloc_3dim cl_size posix_memalign) s s.type
            sound.known) in
      subst (Placed cl_size posix_memalign) (sym (opened ∙ sized))
        (alloc_3dim-Placed cl_size posix_memalign memory s o1 o2 o3 x y z (omega arith) sizes small)

  -- What the call returns: the error of `_allocate_arrays_1dim` for a flagged stream of more
  -- dimensions, otherwise what `Placed` says.
  abbrev pub Allocated : StreamConfig → Result StreamConfig → Type 0
  Allocated s r =
      ((s.dims ≢ 1) × (is_bit_set (some s.flags) 0 ≡ true) × (r ≡ err einval))
      ⊎ (((s.dims ≡ 1) ⊎ (is_bit_set (some s.flags) 0 ≡ false)) × Placed cl_size posix_memalign r)

  -- A stream with a name and an id, of a known type, with one to three dimensions that hold an
  -- element at least, offsets below their sizes, and a block that a `size_t` counts: with two or
  -- three dimensions and the flag of TEST_STREAM_ALLOC_TYPE_1DIM set, the result is -EINVAL;
  -- otherwise the stream lies with all its bytes in the block that it gets, or there is no memory
  -- for the block, and no other error comes.
  pub allocate_arrays-Placed :
      (s : StreamConfig)
      → InMemory cl_size posix_memalign
      → Sound s
      → Allocated s (allocate_arrays cl_size posix_memalign s)
  allocate_arrays-Placed s memory sound = elim (Bool-cases (s.dims == 1)) [
    | inl one_dim ↦
        (let e : s.dims ≡ 1 = ==→eq s.dims 1 one_dim in
          inr (inl e, shape-Placed s memory sound (inl e) sound.shape))
    | inr many ↦ elim (Bool-cases (is_bit_set (some s.flags) 0)) [
      | inl flagged ↦
          (let h : s.dims ≢ 1 = ==→ne s.dims 1 many in
            inl (h, flagged, allocate_flagged s sound h flagged))
      | inr clear ↦ inr (inr clear, shape-Placed s memory sound (inr clear) sound.shape)
    ]
  ]
