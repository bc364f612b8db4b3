-- ===== src/Map/Ops.antt =====
-- The operations of src/map.c against the view of the map as a function of the key.
pub mod Delete
pub mod Update
pub mod Run
use likwid_bench.Base.{
  ℕ, zero, suc, ◌+◌, ◌≤◌, ◌<◌, ◌≡◌, ◌≢◌, refl, sym, ◌∙◌, ap, Bool, true, false, ◌&&◌, ◌⊎◌, Option,
  none, some, some-injective, Option-cases, List, [], ◌∷◌, ◌++◌, if◌then◌else◌, ltb, ltb→lt, lt→ltb,
  ◌==◌, ==→eq, ==→ne, length, length-set, get_elem?, set, get_elem?-set_self, get_elem?-set_ne,
  arith, Bool-cases, inl, inr, Result, ok, err, Errno, enoent, eexist, enospc, enomem, fail,
}
use likwid_bench.Base.Int.{ℤ, pos, negsuc}
use likwid_bench.Map.{
  Hash, Memory, int_max, MapValue, Map, key_copy, insert_copy, index_cell, is_free, free_slot,
  is_bound, free_below, value_of, reserve, fill_at, fill, fill_reserved, add, get_by_key,
  get_by_idx, idx_for_key,
}
use likwid_bench.Map.Find.{used, FreeAt, UsedAt, free_below-FreeAt, used-fill}
use likwid_bench.Map.Valid.{Laws, entry, Valid, Reserved, reserve-Reserved}
use likwid_bench.Map.Stores.{
  get_elem?_lt, get_by_key-some, get_by_key-none, lookup_same, lookup_other, lookup_null,
  get_by_key-index, filled, filled-Valid, get_kept, get_by_idx-set,
}

-- Whether there is memory for what the hash table stores.
abbrev pub has_cells : {K : Type 0} → Memory K → K → ℕ → Bool
has_cells mem key i = mem.key_dup key && mem.int_dup i

module _ {K : Type 0} (h : Hash K) (laws : Laws h) {A : Type 0} where
  -- The new key has the new value, at the index returned; all other keys have theirs.
  abbrev Written : Map h A → K → A → ℕ → Map h A → Type 0
  Written m key a i m' =
      Valid h m'
      × (m'.num_values ≡ m.num_values + 1)
      × (get_by_idx h m' (pos i) ≡ ok (some a))
      × ((k : K) → get_by_key h m' k ≡ (if h.equal key k then ok (some a) else get_by_key h m k))

  -- The new value is counted and stands at its index, but no look-up of a key gives it.
  abbrev pub Lost : Map h A → K → A → ℕ → Map h A → Type 0
  Lost m key a i m' =
      (m'.num_values ≡ m.num_values + 1)
      × (get_by_idx h m' (pos i) ≡ ok (some a))
      × (get_by_key h m' key ≡ err enoent)
      × ((k : K) → get_by_key h m' k ≡ get_by_key h m k)

  abbrev pub Stored : Memory K → Map h A → K → A → ℕ → Map h A → Type 0
  Stored mem m key a i m' =
      ((has_cells mem key i ≡ true) × Written m key a i m')
      ⊎ ((has_cells mem key i ≡ false) × Lost m key a i m')

  abbrev stored : Memory K → Map h A → K → A → ℕ → Map h A
  stored mem m key a i = record m {
    values = set m.values i (record { key = key_copy mem key; value = some a });
    table = insert_copy h m.table (key_copy mem key) (index_cell mem i);
    num_values = m.num_values + 1;
  }

  module _ (mem : Memory K) (m m' : Map h A) (key : K) (a : A) (i : ℕ) (v : Valid h m)
      (v' : Valid h m') (same_count : m'.num_values ≡ m.num_values)
      (same_table : m'.table ≡ m.table)
      (kept : (j : ℕ) (s : MapValue K A)
        → get_elem? m.values j ≡ some s
        → get_elem? m'.values j ≡ some s)
      (fresh : h.lookup m.table key ≡ none) (free : FreeAt m'.values i) where
    fresh' : h.lookup m'.table key ≡ none
    fresh' = ap (λ t. h.lookup t key) same_table ∙ fresh

    filled-Written : Written m key a i (filled h laws m' key a i)
    filled-Written =
        let t = h.insert m'.table key (some i) in
        let self : get_by_idx h (filled h laws m' key a i) (pos i) ≡ ok (some a) =
          get_by_idx-set h laws m' i (entry h key a) t (m'.num_values + 1) v' free in
        (
          filled-Valid h laws m' key a i v' fresh' free,
          ap (λ n. n + 1) same_count,
          self,
          λ k. elim (Bool-cases (h.equal key k)) [
            | inl same ↦
                get_by_key-index h laws (filled h laws m' key a i) k i (some a)
                  (lookup_same h laws m'.table key k (some i) same) self
                ∙ rw same refl
            | inr other ↦ rw other (
                get_kept h laws m m' k i (entry h key a) t (m'.num_values + 1) v v' same_table kept
                  free (lookup_other h laws m'.table key k (some i) other))
          ],
        )

    set-Lost :
        (slot : MapValue K A) (t : h.Table)
        → slot.value ≡ some a
        → ((k : K) → h.lookup t k ≡ h.lookup m'.table k)
        → Lost m key a i
            (record m' { values = set m'.values i slot; table = t; num_values = m'.num_values + 1 })
    set-Lost slot t e same = (
      ap (λ n. n + 1) same_count,
      get_by_idx-set h laws m' i slot t (m'.num_values + 1) v' free ∙ ap ok e,
      get_by_key-none h laws _ key (same key ∙ fresh'),
      λ k. get_kept h laws m m' k i slot t (m'.num_values + 1) v v' same_table kept free (same k),
    )

    stored-Stored : Stored mem m key a i (stored mem m' key a i)
    stored-Stored = elim (Bool-cases (mem.key_dup key)) [
      | inl copied ↦ elim (Bool-cases (mem.int_dup i)) [
        | inl cell ↦ inl (rw (copied, cell) refl, rw (copied, cell) filled-Written)
        | inr no_cell ↦ inr (
          rw (copied, no_cell) refl,
          rw (copied, no_cell)
              (set-Lost (entry h key a) (h.insert m'.table key none) refl
                (λ k. lookup_null h laws m'.table key k fresh')),
        )
      ]
      | inr not_copied ↦ inr (
        rw not_copied refl,
        rw not_copied (set-Lost (record { key = none; value = some a }) m'.table refl (λ k. refl)),
      )
    ]

  -- What an addition does on each branch.
  abbrev pub Added : Memory K → Map h A → K → A → Option (Result ℕ × Map h A) → Type 0
  Added mem m key a none = ⊥
  Added mem m key a (some (ok i, m')) =
      (h.lookup m.table key ≡ none)
      × ((m'.size ≡ m.size) ⊎ ((m'.size ≡ m.size + 1) × (mem.realloc (m.size + 1) ≡ true)))
      × Stored mem m key a i m'
  Added mem m key a (some (err eexist, m')) = (m' ≡ m) × (i : ℕ) × (h.lookup m.table key ≡ some i)
  Added mem m key a (some (err enospc, m')) =
      (m' ≡ m) × (m.num_values ≡ m.size) × (is_bound m.max_size m.size ≡ true)
  Added mem m key a (some (err enomem, m')) =
      (m' ≡ m) × (m.num_values ≡ m.size) × (mem.realloc (m.size + 1) ≡ false)
  Added mem m key a (some (err _, m')) = ⊥

  add-Reserved :
      (mem : Memory K) (m : Map h A) (key : K) (a : A) (r : Result (Map h A))
      → Valid h m
      → h.lookup m.table key ≡ none
      → Reserved h mem.realloc m r
      → Added mem m key a (fill_reserved h mem m key (some a) r)
  unfolding fill
  add-Reserved mem m key a (ok m') v fresh (v', room, same_count, same_table, size, kept) =
      let (i, found, free) = free_below-FreeAt m'.values (omega (arith, v'.sized, v'.counted)) in
      let found' : free_below m'.size m'.values ≡ some i =
        ap (λ n. free_below n m'.values) (sym v'.sized) ∙ found in
      rw (lt→ltb m'.num_values m'.size room, found')
        (fresh, size, stored-Stored mem m m' key a i v v' same_count same_table kept fresh free)
  add-Reserved mem m key a (err enospc) v fresh (full, bound) = (refl, full, bound)
  add-Reserved mem m key a (err enomem) v fresh (full, fails) = (refl, full, fails)
  add-Reserved mem m key a (err _) v fresh r = absurd r

  add-fresh :
      (mem : Memory K) (m : Map h A) (key : K) (a : A)
      → h.lookup m.table key ≡ none
      → add h mem m key (some a) ≡ fill_reserved h mem m key (some a) (reserve h mem.realloc m)
  unfolding add
  add-fresh mem m key a e = rw (e, add) refl

  add-found :
      (mem : Memory K) (m : Map h A) (key : K) (a : A) (i : ℕ)
      → h.lookup m.table key ≡ some i
      → add h mem m key (some a) ≡ some (err eexist, m)
  unfolding add
  add-found mem m key a i e = rw (e, add) refl

  pub add_lem :
      (mem : Memory K) (m : Map h A) (key : K) (a : A)
      → Valid h m
      → Added mem m key a (add h mem m key (some a))
  add_lem mem m key a v = elim (Option-cases (h.lookup m.table key)) [
    | inl fresh ↦ rw (add-fresh mem m key a fresh) (
        add-Reserved mem m key a (reserve h mem.realloc m) v fresh
          (reserve-Reserved h mem.realloc m v))
    | inr (i, e) ↦ rw (add-found mem m key a i e) (refl, i, e)
  ]

  -- The size of the map that the call leaves is an `int`.
  abbrev pub Fits : Option (Result ℕ × Map h A) → Type 0
  Fits none = ⊥
  Fits (some (r, m')) = m'.size ≤ int_max

  Added-Fits :
      (mem : Memory K) (m : Map h A) (key : K) (a : A) (r : Option (Result ℕ × Map h A))
      → m.size < int_max
      → Added mem m key a r
      → Fits r
  Added-Fits mem m key a none lt f = f
  Added-Fits mem m key a (some (ok i, m')) lt (fresh, inl same, stored) = omega arith
  Added-Fits mem m key a (some (ok i, m')) lt (fresh, inr (more, grows), stored) = omega arith
  Added-Fits mem m key a (some (err eexist, m')) lt f = omega (arith, ap (λ n. n.size) (f.0))
  Added-Fits mem m key a (some (err enospc, m')) lt f = omega (arith, ap (λ n. n.size) (f.0))
  Added-Fits mem m key a (some (err enomem, m')) lt f = omega (arith, ap (λ n. n.size) (f.0))
  Added-Fits mem m key a (some (err _, m')) lt f = absurd f

  -- add, on a valid map of fewer than INT_MAX slots, for a value that is not NULL, never writes outside
  -- the array. For a key that is there it returns -EEXIST; for a full array it returns -ENOSPC at
  -- the maximal size, or -ENOMEM where realloc fails; then nothing changes. Else the array has at
  -- most one slot more, and that only if realloc gave it, num_values is one more, and the index
  -- returned is that of the new value. With memory for the copy of the key and for the index cell the
  -- map is valid, and a look-up gives the new value at its key and at every other key what it gave
  -- before. Without, the index is returned all the same, and a look-up gives at every key what it
  -- gave before, so that the new key is not found. The size stays at most INT_MAX.
  pub add-Added :
      (mem : Memory K) (m : Map h A) (key : K) (a : A)
      → Valid h m
      → m.size < int_max
      → Added mem m key a (add h mem m key (some a)) × Fits (add h mem m key (some a))
  add-Added mem m key a v lt = (
    add_lem mem m key a v,
    Added-Fits mem m key a (add h mem m key (some a)) lt (add_lem mem m key a v),
  )
