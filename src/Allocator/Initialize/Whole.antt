-- ===== src/Allocator/Initialize/Whole.antt =====
-- `initialize_arrays` of src/allocator.c on a whole stream.
use native.Mathlib.Nat.{mul-le-mul}
use likwid_bench.Base.{
  ℕ, ◌*◌, ◌/◌, ◌^◌, ◌≤◌, ◌<◌, ◌≡◌, ◌≢◌, refl, ◌∙◌, ap, true, false, Option, some, List, [], ◌∷◌,
  length, take, leb, ◌==◌, ok, arith,
}
use likwid_bench.Allocator.{
  StreamType, single, double, int, half, int64, StreamConfig, word, getsizeof, getstreamelems,
  dimsize,
}
use likwid_bench.Allocator.Blocks.{product, getstreamelems-product}
use likwid_bench.Allocator.Initialize.{unless_half, fill_dims, initialize_arrays}
use likwid_bench.Allocator.Initialize.Filled.{
  filled, fill_1dim-filled, fill_2dim-filled, fill_3dim-filled,
}

-- A dimension with fewer elements than an `int` counts.
abbrev Counted : StreamConfig → ℕ → Type 0
Counted s k = (0 < dimsize s k) × (dimsize s k / getsizeof s.type ≤ 2 ^ 31)

-- One to three dimensions, and fewer elements than a `size_t` counts.
pub data Extent (s : StreamConfig) : Type 0 where
  one : s.dims ≡ 1 → take s.dims s.dimsizes ≡ dimsize s 0 ∷ [] → Counted s 0 → Extent s
  two :
      s.dims ≡ 2
      → take s.dims s.dimsizes ≡ dimsize s 0 ∷ dimsize s 1 ∷ []
      → Counted s 0
      → Counted s 1
      → Extent s
  three :
      s.dims ≡ 3
      → take s.dims s.dimsizes ≡ dimsize s 0 ∷ dimsize s 1 ∷ dimsize s 2 ∷ []
      → Counted s 0
      → Counted s 1
      → Counted s 2
      → product (getsizeof s.type) (take s.dims s.dimsizes) < word
      → Extent s

unless_half-known :
    {V : Type 0} (t : StreamType) (m : Option (List V)) (mem : List V)
    → t ≢ half
    → unless_half t m mem ≡ m
unfolding unless_half
unless_half-known single m mem h = refl
unless_half-known double m mem h = refl
unless_half-known int m mem h = refl
unless_half-known half m mem h = absurd (h refl)
unless_half-known int64 m mem h = refl

opened :
    {V : Type 0} (s : StreamConfig) (v : V) (mem : List V) (k : ℕ)
    → s.dims ≡ k
    → 1 ≤ k
    → k ≤ 3
    → s.type ≢ half
    → s.ptr ≢ 0
    → initialize_arrays s v mem ≡ ok (fill_dims k s v mem)
unfolding initialize_arrays
opened s v mem k dims low high known there =
    let test1 : leb 1 s.dims ≡ true = ground arith in
    let test2 : leb s.dims 3 ≡ true = ground arith in
    let test3 : (s.ptr == 0) ≡ false = ground arith in
    simp (test1, test2, test3, initialize_arrays)
      (ap ok (
        unless_half-known s.type (fill_dims s.dims s v mem) mem known
        ∙ ap (λ d. fill_dims d s v mem) dims))

-- The initialization of a stream of a known type with one to three dimensions, none of them with
-- more elements than an `int` counts, gives the initial value to as many elements from its pointer
-- on as the stream has, and leaves the memory after them as it is, if the memory has them.
pub initialize_arrays-filled :
    {V : Type 0} (s : StreamConfig) (v : V) (mem : List V)
    → s.type ≢ half
    → s.ptr ≢ 0
    → Extent s
    → getstreamelems s ≤ length mem
    → initialize_arrays s v mem ≡ ok (some (filled v (getstreamelems s) mem))
unfolding fill_dims product
initialize_arrays-filled s v mem known there (one dims sizes c0) fits =
    let a = dimsize s 0 / getsizeof s.type in
    let elems : getstreamelems s ≡ a * 1 =
      getstreamelems-product s (dimsize s 0 ∷ []) sizes (c0.0, tt) (omega (arith, c0.1)) in
    opened s v mem 1 dims (omega arith) (omega arith) known there
    ∙ ap ok (fill_1dim-filled v (getstreamelems s) mem (omega (arith, elems, c0.1)) fits)
initialize_arrays-filled s v mem known there (two dims sizes c0 c1) fits =
    let a = dimsize s 0 / getsizeof s.type in
    let b = dimsize s 1 / getsizeof s.type in
    let elems : getstreamelems s ≡ a * (b * 1) =
      getstreamelems-product s (dimsize s 0 ∷ dimsize s 1 ∷ []) sizes (c0.0, (c1.0, tt))
        (omega (arith, mul-le-mul c0.1 c1.1)) in
    opened s v mem 2 dims (omega arith) (omega arith) known there
    ∙ ap ok (
        fill_2dim-filled v a b mem c0.1 c1.1 (omega (arith, elems, fits))
        ∙ ap (λ n. some (filled v n mem)) (omega (arith, elems)))
initialize_arrays-filled s v mem known there (three dims sizes c0 c1 c2 small) fits =
    let a = dimsize s 0 / getsizeof s.type in
    let b = dimsize s 1 / getsizeof s.type in
    let c = dimsize s 2 / getsizeof s.type in
    let elems : getstreamelems s ≡ a * (b * (c * 1)) =
      getstreamelems-product s (dimsize s 0 ∷ dimsize s 1 ∷ dimsize s 2 ∷ []) sizes
        (c0.0, (c1.0, (c2.0, tt))) (rw sizes at small) in
    opened s v mem 3 dims (omega arith) (omega arith) known there
    ∙ ap ok (
        fill_3dim-filled v a b c mem c0.1 c1.1 c2.1 (omega (arith, elems, fits))
        ∙ ap (λ n. some (filled v n mem)) (omega (arith, elems)))
