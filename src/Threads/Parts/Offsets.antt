-- ===== src/Threads/Parts/Offsets.antt =====
-- `_linear_offset` of src/threads.c against the index of an element, row by row.
use native.Mathlib.Nat.{mod-eq_of_lt, mod-add-mod, add-mod-mod, mul-le-mul_right, add-mul}
use likwid_bench.Base.{
  ℕ, zero, suc, ◌+◌, ◌*◌, ◌%◌, ◌≤◌, ◌<◌, ◌≡◌, sym, ◌∙◌, ap, List, get_or, arith,
}
use likwid_bench.Threads.Parts.{word, offset_loop, linear_offset}
use likwid_bench.Allocator.Blocks.{mod-mul}

module _ (offsets dimsizes : List ℕ) where
  -- The number of elements before the one at the offsets, in the first `d` dimensions.
  unfoldable pub index : ℕ → ℕ
  index zero = 0
  index (suc d) = index d * get_or dimsizes d 0 + get_or offsets d 0

  unfoldable pub volume : ℕ → ℕ
  volume zero = 1
  volume (suc d) = volume d * get_or dimsizes d 0

  -- Every offset is within its dimension.
  abbrev pub InRange : ℕ → Type 0
  InRange n = (d : ℕ) → d < n → get_or offsets d 0 < get_or dimsizes d 0

  index-lt : (d : ℕ) → InRange d → index d < volume d
  unfolding index volume
  index-lt zero h = omega arith
  index-lt (suc d) h =
      let size = get_or dimsizes d 0 in
      omega (
        arith,
        h d (omega arith),
        mul-le-mul_right size (index-lt d (λ k lt. h k (omega arith))),
        add-mul (index d) 1 size,
      )

  offset_loop-index :
      (d off stride : ℕ)
      → offset_loop offsets dimsizes d off stride % word ≡ (off + stride * index d) % word
  unfolding offset_loop index
  offset_loop-index zero off stride = ap (λ a. a % word) (omega arith)
  offset_loop-index (suc d) off stride =
      let o = get_or offsets d 0 in
      let size = get_or dimsizes d 0 in
      offset_loop-index d ((off + o * stride) % word) (stride * size % word)
      ∙ mod-add-mod (off + o * stride) word (stride * size % word * index d)
      ∙ sym (add-mod-mod (off + o * stride) (stride * size % word * index d) word)
      ∙ ap (λ a. (off + o * stride + a) % word) (mod-mul (stride * size) (index d) word)
      ∙ add-mod-mod (off + o * stride) (stride * size * index d) word
      ∙ ap (λ a. a % word) (grind arith)

  -- If every offset is within its dimension and the bytes of all the elements fit a word, the offset
  -- is that of the element with these indices, row by row, and the element ends within those bytes.
  pub linear_offset-index :
      (ndims size : ℕ)
      → InRange ndims
      → volume ndims * size < word
      → (linear_offset ndims offsets dimsizes size ≡ index ndims * size)
        × (linear_offset ndims offsets dimsizes size + size ≤ volume ndims * size)
  unfolding linear_offset
  linear_offset-index ndims size h small =
      let i = index ndims in
      let inside = mul-le-mul_right size (index-lt ndims h) in
      let ends = add-mul i 1 size in
      let exact : linear_offset ndims offsets dimsizes size ≡ i * size =
        sym (mod-mul (offset_loop offsets dimsizes ndims 0 1) size word)
        ∙ ap (λ a. a * size % word) (offset_loop-index ndims 0 1)
        ∙ mod-mul (0 + 1 * i) size word
        ∙ ap (λ a. a * size % word) (omega arith)
        ∙ mod-eq_of_lt (omega (arith, inside, ends)) in
      (exact, omega (arith, exact, inside, ends))
