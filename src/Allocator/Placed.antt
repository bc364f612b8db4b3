-- ===== src/Allocator/Placed.antt =====
-- The allocation of src/allocator.c, for streams whose sizes and offsets fit a `size_t`.
use mathlib.Core.Path.{subst}
use native.Mathlib.Nat.{mod-eq_of_lt, add-mul, mul-le-mul_right, le-mul_of_pos_right, mul-pos}
use likwid_bench.Base.{
  ℕ, ◌+◌, ◌*◌, ◌/◌, ◌%◌, ◌≤◌, ◌<◌, ◌≡◌, refl, sym, ◌∙◌, ap, false, Option, some, [], ◌∷◌, take, leb,
  ◌==◌, arith,
}
use likwid_bench.Base.Int.{pos}
use likwid_bench.Allocator.{
  StreamType, single, double, int, half, int64, StreamConfig, word, getsizeof, getstreamelems,
  getstreambytes, dimsize, offset, checked, place, alloc_1dim, alloc_2dim, alloc_3dim,
}
use likwid_bench.Allocator.Blocks.{
  product, getstreamelems-product, getstreambytes-product, Placed, InMemory, place-Placed,
}

-- A dimension that holds an element at least, and an offset below its size.
pub record Dimension (s : StreamConfig) (k o : ℕ) : Type 0 where
  pub offset_k : offset s k ≡ pos o
  pub below : o < dimsize s k
  pub holds : 0 < dimsize s k / getsizeof s.type

checked-some : (s : StreamConfig) (k o : ℕ) → Dimension s k o → checked s k ≡ some o
unfolding checked
checked-some s k o x =
    let inside : leb (dimsize s k) o ≡ false = ground (arith, x.below) in
    rw (x.offset_k, inside, checked) refl

getsizeof-pos : (t : StreamType) → 0 < getsizeof t
unfolding getsizeof
getsizeof-pos single = omega arith
getsizeof-pos double = omega arith
getsizeof-pos int = omega arith
getsizeof-pos half = omega arith
getsizeof-pos int64 = omega arith

scale : (x y z size : ℕ) → x + y ≤ z → x * size + y * size ≤ z * size
scale x y z size h = omega (arith, add-mul x y size, mul-le-mul_right size h)

one_fits : (a o : ℕ) → o + a * 1 ≤ a + o
one_fits a o = omega arith

two_fits : (a b o p : ℕ) → 0 < a → o * (b + p) + p + a * (b * 1) ≤ (p + b) * (o + a)
two_fits a b o p h = grind (arith, le-mul_of_pos_right p h)

three_fits :
    (a b c o p q : ℕ)
    → 0 < a
    → 0 < b
    → o * (b + p) * (c + q) + p * (c + q) + q + a * (b * (c * 1)) ≤ (a + o) * (b + p) * (c + q)
three_fits a b c o p q h k =
    grind (arith, le-mul_of_pos_right (p * (c + q)) h, le-mul_of_pos_right q (mul-pos h k))

factor_le_left : (u v : ℕ) → 0 < u → v ≤ u * v
factor_le_left u v h = grind (arith, le-mul_of_pos_right v h)

a_one : (a : ℕ) → a * 1 ≡ a
a_one a = omega arith

one_below : (a o : ℕ) → a * 1 ≤ a + o
one_below a o = omega arith

below_sum : (x y z : ℕ) → x + y ≤ z → y ≤ z
below_sum x y z h = omega arith

not_zero : (x : ℕ) → 0 < x → x < word → (x % word == 0) ≡ false
not_zero x h small = let e = mod-eq_of_lt small in ground (arith, e)

factor_le : (u v : ℕ) → 0 < v → u ≤ u * v
factor_le u v h = le-mul_of_pos_right u h

module _ (cl_size : ℕ) (posix_memalign : (alignment size : ℕ) → Option ℕ)
    (memory : InMemory cl_size posix_memalign) (s : StreamConfig) where
  abbrev size : ℕ
  size = getsizeof s.type

  -- `place` with a number of bytes that does not wrap.
  place_whole :
      (elems shift whole : ℕ)
      → getstreambytes s ≡ elems * size
      → shift + elems ≤ whole
      → 0 < whole
      → whole * size < word
      → Placed cl_size posix_memalign
          (place cl_size posix_memalign s size (whole * size % word) shift)
  place_whole elems shift whole bytes fits some_elems small = rw (mod-eq_of_lt small) (
      place-Placed cl_size posix_memalign memory s size (whole * size) shift
        (mul-pos some_elems (getsizeof-pos s.type))
        (omega (arith, bytes, scale shift elems whole size fits)))

  pub alloc_1dim-Placed :
      (o : ℕ)
      → Dimension s 0 o
      → 0 < s.dims
      → take s.dims s.dimsizes ≡ dimsize s 0 ∷ []
      → (dimsize s 0 / size + o) * size < word
      → Placed cl_size posix_memalign (alloc_1dim cl_size posix_memalign s size)
  unfolding alloc_1dim product
  alloc_1dim-Placed o x dims sizes small =
      let a = dimsize s 0 / size in
      let whole_le = factor_le (a + o) size (getsizeof-pos s.type) in
      let elems : getstreamelems s ≡ a * 1 =
        getstreamelems-product s (dimsize s 0 ∷ []) sizes (omega (arith, x.below), tt)
          (omega (arith, whole_le, small)) in
      let fewer = mul-le-mul_right size (one_below a o) in
      let bytes : getstreambytes s ≡ a * 1 * size =
        getstreambytes-product s (dimsize s 0 ∷ []) dims sizes (omega (arith, x.below), tt)
          (omega (arith, fewer, small)) in
      let placed = place cl_size posix_memalign s size in
      let opened : alloc_1dim cl_size posix_memalign s size
          ≡ placed ((getstreamelems s + o) * size % word) o =
        rw (checked-some s 0 o x, alloc_1dim) refl in
      subst (Placed cl_size posix_memalign)
        (sym (opened ∙ ap (λ e. placed ((e + o) * size % word) o) (elems ∙ a_one a)))
        (place_whole a o (a + o) (bytes ∙ ap (λ e. e * size) (a_one a)) (omega arith)
          (omega (arith, x.holds)) small)

  pub alloc_2dim-Placed :
      (o1 o2 : ℕ)
      → Dimension s 0 o1
      → Dimension s 1 o2
      → 0 < s.dims
      → take s.dims s.dimsizes ≡ dimsize s 0 ∷ dimsize s 1 ∷ []
      → (o2 + dimsize s 1 / size) * (o1 + dimsize s 0 / size) * size < word
      → Placed cl_size posix_memalign (alloc_2dim cl_size posix_memalign s size)
  unfolding alloc_2dim product
  alloc_2dim-Placed o1 o2 x y dims sizes small =
      let a = dimsize s 0 / size in
      let b = dimsize s 1 / size in
      let fits = two_fits a b o1 o2 x.holds in
      let whole = (o2 + b) * (o1 + a) in
      let whole_le = factor_le whole size (getsizeof-pos s.type) in
      let first_le : o1 + a ≤ whole = factor_le_left (o2 + b) (o1 + a) (omega (arith, y.holds)) in
      let test : ((o1 + a) % word == 0) ≡ false =
        not_zero (o1 + a) (omega (arith, x.holds)) (omega (arith, first_le, whole_le, small)) in
      let fewer = mul-le-mul_right size (below_sum (o1 * (b + o2) + o2) (a * (b * 1)) whole fits) in
      let bytes : getstreambytes s ≡ a * (b * 1) * size =
        getstreambytes-product s (dimsize s 0 ∷ dimsize s 1 ∷ []) dims sizes
          (omega (arith, x.below), (omega (arith, y.below), tt)) (omega (arith, fewer, small)) in
      let placed = place cl_size posix_memalign s size in
      let opened : alloc_2dim cl_size posix_memalign s size
          ≡ placed (whole * size % word) (o1 * (b + o2) + o2) =
        rw (checked-some s 0 o1 x, checked-some s 1 o2 y, test, alloc_2dim) refl in
      subst (Placed cl_size posix_memalign) (sym opened) (
        place_whole (a * (b * 1)) (o1 * (b + o2) + o2) whole bytes fits
          (mul-pos (omega (arith, y.holds)) (omega (arith, x.holds))) small)

  pub alloc_3dim-Placed :
      (o1 o2 o3 : ℕ)
      → Dimension s 0 o1
      → Dimension s 1 o2
      → Dimension s 2 o3
      → 0 < s.dims
      → take s.dims s.dimsizes ≡ dimsize s 0 ∷ dimsize s 1 ∷ dimsize s 2 ∷ []
      → (dimsize s 0 / size + o1) * (dimsize s 1 / size + o2) * (dimsize s 2 / size + o3) * size
        < word
      → Placed cl_size posix_memalign (alloc_3dim cl_size posix_memalign s size)
  unfolding alloc_3dim product
  alloc_3dim-Placed o1 o2 o3 x y z dims sizes small =
      let a = dimsize s 0 / size in
      let b = dimsize s 1 / size in
      let c = dimsize s 2 / size in
      let elems = a * (b * (c * 1)) in
      let shift = o1 * (b + o2) * (c + o3) + o2 * (c + o3) + o3 in
      let fits = three_fits a b c o1 o2 o3 x.holds y.holds in
      let two = (a + o1) * (b + o2) in
      let whole = two * (c + o3) in
      let whole_le = factor_le whole size (getsizeof-pos s.type) in
      let two_le : two ≤ whole = factor_le two (c + o3) (omega (arith, z.holds)) in
      let one_le : a + o1 ≤ two = factor_le (a + o1) (b + o2) (omega (arith, y.holds)) in
      let two_pos : 0 < two = mul-pos (omega (arith, x.holds)) (omega (arith, y.holds)) in
      let test1 : ((a + o1) % word == 0) ≡ false =
        not_zero (a + o1) (omega (arith, x.holds))
          (omega (arith, one_le, two_le, whole_le, small)) in
      let test2 : (two % word == 0) ≡ false =
        not_zero two two_pos (omega (arith, two_le, whole_le, small)) in
      let fewer = mul-le-mul_right size (below_sum shift elems whole fits) in
      let bytes : getstreambytes s ≡ elems * size =
        getstreambytes-product s (dimsize s 0 ∷ dimsize s 1 ∷ dimsize s 2 ∷ []) dims sizes
          (omega (arith, x.below), (omega (arith, y.below), (omega (arith, z.below), tt)))
          (omega (arith, fewer, small)) in
      let placed = place cl_size posix_memalign s size in
      let opened : alloc_3dim cl_size posix_memalign s size ≡ placed (whole * size % word) shift =
        rw
          (
            checked-some s 0 o1 x,
            checked-some s 1 o2 y,
            checked-some s 2 o3 z,
            test1,
            test2,
            alloc_3dim,
          )
          refl in
      subst (Placed cl_size posix_memalign) (sym opened)
        (place_whole elems shift whole bytes fits (mul-pos two_pos (omega (arith, z.holds))) small)
