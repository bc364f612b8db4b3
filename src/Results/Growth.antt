-- ===== src/Results/Growth.antt =====
-- How an addition to a map of src/map.c changes its size, where no slot is unused.
use likwid_bench.Base.{
  ℕ, ◌+◌, ◌≡◌, refl, true, Option, none, some, Option-cases, ◌==◌, ltb, Bool-cases, inl, inr,
  Result, ok, err,
}
use likwid_bench.Map.{Hash, Memory, Map, is_bound, free_below, reserve, fill, add, update}

module _ {K A : Type 0} (h : Hash K) where
  -- If a value has been added, the array has one more place, and the bound is the same.
  abbrev pub Grown : Map h A → Option (Result ℕ × Map h A) → Type 0
  Grown m none = Unit
  Grown m (some (ok i, m')) = (m'.size ≡ m.size + 1) × (m'.max_size ≡ m.max_size)
  Grown m (some (err e, m')) = Unit

  fill-Grown :
      (mem : Memory K) (m m' : Map h A) (key : K) (val : Option A)
      → m'.size ≡ m.size + 1
      → m'.max_size ≡ m.max_size
      → Grown m (fill h mem m' key val)
  unfolding fill
  fill-Grown mem m m' key val size bound = elim (Bool-cases (ltb m'.num_values m'.size)) [
    | inl room ↦ elim (Option-cases (free_below m'.size m'.values)) [
      | inl e ↦ rw (room, e) tt
      | inr (i, e) ↦ rw (room, e) (size, bound)
    ]
    | inr other ↦ rw other tt
  ]

  pub add-Grown :
      (mem : Memory K) (m : Map h A) (key : K) (val : Option A)
      → (m.num_values == m.size) ≡ true
      → Grown m (add h mem m key val)
  unfolding add reserve
  add-Grown mem m key val full = elim (Option-cases (h.lookup m.table key)) [
    | inr (i, e) ↦ rw (e, add) tt
    | inl e ↦ elim (Bool-cases (is_bound m.max_size m.size)) [
      | inl bound ↦ rw (e, add, full, bound) tt
      | inr open_end ↦ elim (Bool-cases (mem.realloc (m.size + 1))) [
        | inl grows ↦ rw (e, add, full, open_end, grows) (fill-Grown mem m _ key val refl refl)
        | inr fails ↦ rw (e, add, full, open_end, fails) tt
      ]
    ]
  ]

  -- An update leaves the size and the bound as they are.
  pub update-size :
      (m : Map h A) (key : K) (val : Option A)
      → (((update h m key val).1).size ≡ m.size) × (((update h m key val).1).max_size ≡ m.max_size)
  unfolding update
  update-size m key val = elim (Option-cases (h.lookup m.table key)) [
    | inl e ↦ rw (e, update) (refl, refl)
    | inr (i, e) ↦ elim (Bool-cases (m.num_values == m.size)) [
      | inl full ↦ rw (e, update, full) (refl, refl)
      | inr other ↦ rw (e, update, other) (refl, refl)
    ]
  ]
