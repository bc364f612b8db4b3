-- ===== src/Allocator/Initialize/Filled.antt =====
-- The memory after the loops of src/allocator.c.
use native.Mathlib.Nat.{mod-eq_of_lt, mul-le-mul_right, add-mul}
use likwid_bench.Base.{
  ℕ, zero, suc, ◌+◌, ◌*◌, ◌%◌, ◌^◌, ◌≤◌, ◌<◌, ◌≡◌, refl, ◌∙◌, ap, true, false, Option, some, List,
  [], ◌∷◌, ◌++◌, length, set, drop, replicate, leb, ltb, arith,
}
use likwid_bench.Allocator.Initialize.{
  as_int, store, for_range, init_1d, init_2d, init_3d, fill_1dim, fill_2dim, fill_3dim,
}

as_int-some : (i : ℕ) → i < 2 ^ 31 → as_int i ≡ some i
unfolding as_int
as_int-some i lt =
    let e : i % 2 ^ 32 ≡ i = mod-eq_of_lt (omega arith) in
    let test : ltb (i % 2 ^ 32) (2 ^ 31) ≡ true = ground (arith, e) in rw (test, as_int) (ap some e)

module _ {V : Type 0} (v : V) where
  -- The memory whose first `k` elements have been written.
  abbrev pub filled : ℕ → List V → List V
  filled k mem = replicate k v ++ drop k mem

  set-filled : (k : ℕ) (mem : List V) → k < length mem → set (filled k mem) k v ≡ filled (suc k) mem
  set-filled k [] lt = absurd (omega arith)
  set-filled zero (x ∷ mem) lt = refl
  set-filled (suc k) (x ∷ mem) lt = ap (◌∷◌ v) (set-filled k mem (omega arith))

  length-filled : (k : ℕ) (mem : List V) → k ≤ length mem → length (filled k mem) ≡ length mem
  length-filled zero mem le = refl
  length-filled (suc k) [] le = absurd (omega arith)
  length-filled (suc k) (x ∷ mem) le = ap suc (length-filled k mem (omega arith))

  store-filled :
      (k : ℕ) (mem : List V) → k < length mem → store v k (filled k mem) ≡ some (filled (suc k) mem)
  unfolding store
  store-filled k mem lt =
      let test : leb (length (filled k mem)) k ≡ false =
        ground (arith, length-filled k mem (omega arith)) in
      rw test (ap some (set-filled k mem lt))

-- A loop whose body takes the state for one index to the state for the next.
for_range-some :
    {V : Type 0} (i n : ℕ) (body : ℕ → List V → Option (List V)) (state : ℕ → List V)
    → ((j : ℕ) → j < i + n → body j (state j) ≡ some (state (suc j)))
    → for_range i n body (state i) ≡ some (state (i + n))
unfolding for_range
for_range-some i zero body state h = ap (λ m. some (state m)) (omega arith)
for_range-some i (suc n) body state h =
    rw (h i (omega arith), for_range)
      (for_range-some (suc i) n body state (λ j lt. h j (omega arith))
        ∙ ap (λ m. some (state m)) (omega arith))

module _ {V : Type 0} (v : V) where
  pub fill_1dim-filled :
      (elems : ℕ) (mem : List V)
      → elems ≤ 2 ^ 31
      → elems ≤ length mem
      → fill_1dim v elems mem ≡ some (filled v elems mem)
  unfolding fill_1dim init_1d
  fill_1dim-filled elems mem small fits =
      for_range-some 0 elems (init_1d v) (λ i. filled v i mem)
        (λ i lt. rw (as_int-some i (omega arith), init_1d) (store-filled v i mem (omega arith)))
      ∙ ap (λ k. some (filled v k mem)) (omega arith)

  -- A row of `n` elements that begins at `start`.
  row :
      (start n : ℕ) (mem : List V) (body : ℕ → List V → Option (List V))
      → start + n ≤ length mem
      → ((j : ℕ) (m : List V) → j < n → body j m ≡ store v (start + j) m)
      → for_range 0 n body (filled v start mem) ≡ some (filled v (start + n) mem)
  row start n mem body fits writes =
      ap (λ k. for_range 0 n body (filled v k mem)) (omega arith)
      ∙ for_range-some 0 n body (λ j. filled v (start + j) mem)
          (λ j lt.
            writes j (filled v (start + j) mem) (omega arith)
            ∙ store-filled v (start + j) mem (omega arith)
            ∙ ap (λ k. some (filled v k mem)) {x = suc (start + j)} (omega arith))
      ∙ ap (λ k. some (filled v k mem)) (omega arith)

  -- Rows one after another.
  rows :
      (start n width : ℕ) (mem : List V) (body : ℕ → List V → Option (List V))
      → ((i : ℕ)
          → i < n
          → body i (filled v (start + i * width) mem)
            ≡ some (filled v (start + i * width + width) mem))
      → for_range 0 n body (filled v start mem) ≡ some (filled v (start + n * width) mem)
  rows start n width mem body fills =
      ap (λ k. for_range 0 n body (filled v k mem)) (omega arith)
      ∙ for_range-some 0 n body (λ i. filled v (start + i * width) mem)
          (λ i lt. fills i (omega arith) ∙ ap (λ k. some (filled v k mem)) (omega arith))
      ∙ ap (λ k. some (filled v k mem)) (omega arith)

  row_le : (i n width : ℕ) → i < n → i * width + width ≤ n * width
  row_le i n width lt = omega (arith, mul-le-mul_right width lt, add-mul i 1 width)

  pub fill_2dim-filled :
      (size1 size2 : ℕ) (mem : List V)
      → size1 ≤ 2 ^ 31
      → size2 ≤ 2 ^ 31
      → size1 * size2 ≤ length mem
      → fill_2dim v size1 size2 mem ≡ some (filled v (size1 * size2) mem)
  unfolding fill_2dim init_2d
  fill_2dim-filled size1 size2 mem small1 small2 fits =
      rows 0 size1 size2 mem (λ i. for_range 0 size2 (init_2d v size2 i))
        (λ i lt.
          row (0 + i * size2) size2 mem (init_2d v size2 i) (omega (arith, row_le i size1 size2 lt))
            (λ j m ltj.
              rw (as_int-some i (omega arith), as_int-some j (omega arith), init_2d)
                (ap (λ k. store v k m) (omega arith))))
      ∙ ap (λ k. some (filled v k mem)) (omega arith)

  pub fill_3dim-filled :
      (size1 size2 size3 : ℕ) (mem : List V)
      → size1 ≤ 2 ^ 31
      → size2 ≤ 2 ^ 31
      → size3 ≤ 2 ^ 31
      → size1 * (size2 * size3) ≤ length mem
      → fill_3dim v size1 size2 size3 mem ≡ some (filled v (size1 * (size2 * size3)) mem)
  unfolding fill_3dim init_3d
  fill_3dim-filled size1 size2 size3 mem small1 small2 small3 fits =
      let plane = size2 * size3 in
      rows 0 size1 plane mem
        (λ i. for_range 0 size2 (λ j. for_range 0 size3 (init_3d v plane size3 i j)))
        (λ i lt.
          rows (0 + i * plane) size2 size3 mem (λ j. for_range 0 size3 (init_3d v plane size3 i j))
            (λ j ltj.
              row (0 + i * plane + j * size3) size3 mem (init_3d v plane size3 i j)
                (omega (arith, row_le i size1 plane lt, row_le j size2 size3 ltj))
                (λ k m ltk.
                  rw
                    (
                      as_int-some i (omega arith),
                      as_int-some j (omega arith),
                      as_int-some k (omega arith),
                      init_3d,
                    )
                    (ap (λ e. store v e m) (omega arith)))))
      ∙ ap (λ k. some (filled v k mem)) (omega arith)
