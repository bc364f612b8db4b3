-- ===== src/Allocator/Blocks.antt =====
-- Where the stream lies in the block that `allocate_arrays` of src/allocator.c gets for it.
use native.Mathlib.Nat.{mod-eq_of_lt, mod-add-div, mod-lt, add-mul-mod_self_left}
use likwid_bench.Base.{
  ℕ, ◌+◌, ◌*◌, ◌/◌, ◌%◌, ◌≤◌, ◌<◌, ◌≡◌, refl, sym, ◌∙◌, ap, false, Option, none, some, Option-cases,
  List, [], ◌∷◌, All, take, ◌==◌, Result, ok, err, enomem, arith, inl, inr,
}
use likwid_bench.Allocator.{
  StreamConfig, word, getsizeof, elems_loop, getstreamelems, getstreambytes, place,
}

-- The number of elements, without a wrap.
unfoldable pub product : (size : ℕ) → List ℕ → ℕ
product size [] = 1
product size (d ∷ ds) = d / size * product size ds

pub mod-mul : (x y w : ℕ) → x % w * y % w ≡ x * y % w
mod-mul x y w =
    let e : x * y ≡ x % w * y + w * (x / w * y) =
      ap (λ a. a * y) (sym (mod-add-div x w)) ∙ grind arith in
    sym (ap (λ a. a % w) e ∙ add-mul-mod_self_left (x % w * y) w (x / w * y))

elems_loop-some :
    (size : ℕ) (ds : List ℕ) (total n : ℕ)
    → All (λ d. 0 < d) ds
    → n % word ≡ total * product size ds % word
    → total < word
    → (t : ℕ) × (elems_loop size ds total ≡ some t) × (t % word ≡ n % word) × (t < word)
unfolding elems_loop product
elems_loop-some size [] total n h e lt =
    (total, refl, sym (e ∙ ap (λ a. a % word) (omega arith)), lt)
elems_loop-some size (d ∷ ds) total n h e lt =
    let test : (d == 0) ≡ false = ground (arith, h.0) in
    let total' = total * (d / size) % word in
    let (t, loops, same, small) =
      elems_loop-some size ds total' n h.1
        (e
          ∙ ap (λ a. a % word) (grind arith)
          ∙ sym (mod-mul (total * (d / size)) (product size ds) word))
        (mod-lt (total * (d / size)) (omega arith)) in
    (t, rw (test, elems_loop) loops, same, small)

pub getstreamelems-product :
    (s : StreamConfig) (ds : List ℕ)
    → take s.dims s.dimsizes ≡ ds
    → All (λ d. 0 < d) ds
    → product (getsizeof s.type) ds < word
    → getstreamelems s ≡ product (getsizeof s.type) ds
unfolding getstreamelems
getstreamelems-product s ds same h small =
    let p = product (getsizeof s.type) ds in
    let (t, loops, e, lt) =
      elems_loop-some (getsizeof s.type) ds 1 p h (ap (λ a. a % word) (omega arith))
        (omega arith) in
    rw (same, loops, getstreamelems) (sym (mod-eq_of_lt lt) ∙ e ∙ mod-eq_of_lt small)

pub getstreambytes-product :
    (s : StreamConfig) (ds : List ℕ)
    → 0 < s.dims
    → take s.dims s.dimsizes ≡ ds
    → All (λ d. 0 < d) ds
    → product (getsizeof s.type) ds * getsizeof s.type < word
    → getstreambytes s ≡ product (getsizeof s.type) ds * getsizeof s.type
unfolding getstreambytes
getstreambytes-product s ds some_dim same h small =
    let size = getsizeof s.type in
    let p = product size ds in
    let (t, loops, e, lt) =
      elems_loop-some size ds 1 p h (ap (λ a. a % word) (omega arith)) (omega arith) in
    let test : (s.dims == 0) ≡ false = ground arith in
    rw (test, same, loops)
      (sym (mod-mul t size word)
        ∙ ap (λ a. a * size % word) e
        ∙ mod-mul p size word
        ∙ mod-eq_of_lt small)

module _ (cl_size : ℕ) (posix_memalign : (alignment size : ℕ) → Option ℕ) where
  -- The bytes of the stream lie in the block.
  pub record InBlock (s : StreamConfig) : Type 0 where
    pub size : ℕ
    pub block : posix_memalign cl_size size ≡ some s.base_ptr
    pub starts : s.base_ptr ≤ s.ptr
    pub ends : s.ptr + getstreambytes s ≤ s.base_ptr + size

  -- The stream lies in its block, or no memory was left for one.
  abbrev pub Placed : Result StreamConfig → Type 0
  Placed (ok s) = InBlock s
  Placed (err e) = (e ≡ enomem) × (size : ℕ) × (posix_memalign cl_size size ≡ none)

  -- A block is within the address space.
  abbrev pub InMemory : Type 0
  InMemory = (size base : ℕ) → posix_memalign cl_size size ≡ some base → base + size < word

  module _ (memory : InMemory) where
    pub place-Placed :
        (s : StreamConfig) (size msize shift : ℕ)
        → 0 < msize
        → shift * size + getstreambytes s ≤ msize
        → Placed (place cl_size posix_memalign s size msize shift)
    unfolding place getstreambytes elems_loop getsizeof
    place-Placed s size msize shift some_bytes fits =
        let test : (msize == 0) ≡ false = ground arith in
        rw test (elim (Option-cases (posix_memalign cl_size msize)) [
          | inl full ↦ rw full (refl, msize, full)
          | inr (base, got) ↦
              let same : (b p : ℕ)
                  → getstreambytes (record s { base_ptr = b; ptr = p }) ≡ getstreambytes s =
                λ b p. refl in
              let ends = memory msize base got in
              let flat : (base + shift * size) % word ≡ base + shift * size =
                mod-eq_of_lt (omega (arith, ends, fits)) in
              rw got (record {
                size = msize;
                block = got;
                starts = omega (arith, flat);
                ends = omega (arith, flat, fits, same base ((base + shift * size) % word));
              })
        ])
