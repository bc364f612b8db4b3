-- ===== src/Map/Valid.antt =====
-- The invariant of the map of src/map.c: the hash table and the array agree, and the counts are right.
use likwid_bench.Base.{
  ℕ, zero, suc, ◌+◌, ◌<◌, ◌≡◌, refl, ◌∙◌, ap, Bool, true, false, Option, none, some, some-injective,
  List, [], ◌∷◌, ◌++◌, if◌then◌else◌, ◌==◌, ==→eq, ==→ne, length, length-append, get_elem?, arith,
  Bool-cases, inl, inr, ◌⊎◌, Result, ok, err, enospc, enomem,
}
use likwid_bench.Map.{Hash, MapValue, Map, is_free, free_slot, is_bound, reserve}
use likwid_bench.Map.Find.{used, used_le, used-append_free}

-- What the hash table does, as its documentation says: the last value inserted for an equal key.
pub record Laws {K : Type 0} (h : Hash K) : Type 0 where
  pub equal→eq : (a b : K) → h.equal a b ≡ true → a ≡ b
  pub equal_self : (a : K) → h.equal a a ≡ true
  pub lookup-empty : (k : K) → h.lookup h.empty k ≡ none
  pub lookup-insert :
      (t : h.Table) (k : K) (cell : Option ℕ) (k' : K)
      → h.lookup (h.insert t k cell) k' ≡ (if h.equal k k' then cell else h.lookup t k')
  pub lookup-remove :
      (t : h.Table) (k k' : K)
      → h.lookup (h.remove t k) k' ≡ (if h.equal k k' then none else h.lookup t k')

module _ {K : Type 0} (h : Hash K) {A : Type 0} where
  abbrev pub entry : K → A → MapValue K A
  entry k a = record { key = some k; value = some a }

  pub record Valid (m : Map h A) : Type 0 where
    pub sized : length m.values ≡ m.size
    pub counted : used m.values ≡ m.num_values
    pub indexed :
        (k : K) (i : ℕ)
        → h.lookup m.table k ≡ some i
        → (a : A) × (get_elem? m.values i ≡ some (entry k a))
    pub listed :
        (i : ℕ) (slot : MapValue K A)
        → get_elem? m.values i ≡ some slot
        → is_free slot ≡ false
        → (k : K) × (a : A) × (slot ≡ entry k a) × (h.lookup m.table k ≡ some i)

  get_elem?-append_free :
      (slots : List (MapValue K A)) (i : ℕ) (slot : MapValue K A)
      → get_elem? (slots ++ (free_slot ∷ [])) i ≡ some slot
      → is_free slot ≡ false
      → get_elem? slots i ≡ some slot
  get_elem?-append_free [] zero slot e taken =
      let k : true ≡ false = ap is_free (some-injective free_slot slot e) ∙ taken in cc
  get_elem?-append_free [] (suc i) slot e taken = e
  get_elem?-append_free (t ∷ slots) zero slot e taken = e
  get_elem?-append_free (t ∷ slots) (suc i) slot e taken =
      get_elem?-append_free slots i slot e taken

  get_elem?-append :
      (slots rest : List (MapValue K A)) (i : ℕ) (slot : MapValue K A)
      → get_elem? slots i ≡ some slot
      → get_elem? (slots ++ rest) i ≡ some slot
  get_elem?-append [] rest i slot e = cc
  get_elem?-append (t ∷ slots) rest zero slot e = e
  get_elem?-append (t ∷ slots) rest (suc i) slot e = get_elem?-append slots rest i slot e

  -- The array with one more free slot.
  grown-Valid :
      (m : Map h A)
      → Valid m
      → Valid (record m { values = m.values ++ (free_slot ∷ []); size = m.size + 1 })
  grown-Valid m v = record {
    sized = omega (arith, length-append m.values (free_slot ∷ []), v.sized);
    counted = used-append_free m.values ∙ v.counted;
    indexed = λ k i e.
        let (a, e') = v.indexed k i e in
        (a, get_elem?-append m.values (free_slot ∷ []) i (entry k a) e');
    listed =
        λ i slot e taken. v.listed i slot (get_elem?-append_free m.values i slot e taken) taken;
  }

  -- Behind `reserve` there is a free slot, and nothing else has changed.
  abbrev pub Reserved : (ℕ → Bool) → Map h A → Result (Map h A) → Type 0
  Reserved realloc m (ok m') =
      Valid m'
      × (m'.num_values < m'.size)
      × (m'.num_values ≡ m.num_values)
      × (m'.table ≡ m.table)
      × ((m'.size ≡ m.size) ⊎ ((m'.size ≡ m.size + 1) × (realloc (m.size + 1) ≡ true)))
      × ((i : ℕ) (slot : MapValue K A)
          → get_elem? m.values i ≡ some slot
          → get_elem? m'.values i ≡ some slot)
  Reserved realloc m (err enospc) = (m.num_values ≡ m.size) × (is_bound m.max_size m.size ≡ true)
  Reserved realloc m (err enomem) = (m.num_values ≡ m.size) × (realloc (m.size + 1) ≡ false)
  Reserved realloc m (err _) = ⊥

  pub reserve-Reserved :
      (realloc : ℕ → Bool) (m : Map h A) → Valid m → Reserved realloc m (reserve h realloc m)
  unfolding reserve
  reserve-Reserved realloc m v = elim (Bool-cases (m.num_values == m.size)) [
    | inl full ↦ elim (Bool-cases (is_bound m.max_size m.size)) [
      | inl bound ↦ rw (full, bound) (==→eq m.num_values m.size full, bound)
      | inr open_end ↦ elim (Bool-cases (realloc (m.size + 1))) [
        | inl grows ↦
            rw (full, open_end, grows)
              (
                grown-Valid m v,
                omega (arith, ==→eq m.num_values m.size full),
                refl,
                refl,
                inr (refl, grows),
                λ i slot e. get_elem?-append m.values (free_slot ∷ []) i slot e,
              )
        | inr fails ↦ rw (full, open_end, fails) (==→eq m.num_values m.size full, fails)
      ]
    ]
    | inr room ↦ rw room (
      v,
      omega (arith, ==→ne m.num_values m.size room, used_le m.values, v.sized, v.counted),
      refl,
      refl,
      inl refl,
      λ i slot e. e,
    )
  ]
