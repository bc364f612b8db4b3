-- ===== src/Map/Ops/Delete.antt =====
-- Deletion from the map of src/map.c, and what it does to later updates.
use likwid_bench.Base.{
  ℕ, ◌+◌, ◌-◌, ◌<◌, ◌≡◌, ◌≢◌, refl, sym, ◌∙◌, ap, true, false, Option, none, some, some-injective,
  Option-cases, List, [], if◌then◌else◌, ◌==◌, ==→eq, ==→ne, length, length-set, get_elem?, set,
  get_elem?-set_self, get_elem?-set_ne, arith, Bool-cases, inl, inr, Result, ok, err, enoent, fail,
}
use likwid_bench.Map.{
  Hash, MapValue, Map, is_free, free_slot, value_of, get_by_key, update, delete, destroyed,
}
use likwid_bench.Map.Find.{used_le, used-empty}
use likwid_bench.Map.Valid.{Laws, entry, Valid}
use likwid_bench.Map.Stores.{get_elem?_lt, get_by_key-some, get_by_key-none}

module _ {K : Type 0} (h : Hash K) (laws : Laws h) where
  removed_same :
      (t : h.Table) (key k : K) → h.equal key k ≡ true → h.lookup (h.remove t key) k ≡ none
  removed_same t key k e = laws.lookup-remove t key k ∙ rw e refl

  removed_other :
      (t : h.Table) (key k : K) → h.equal key k ≡ false → h.lookup (h.remove t key) k ≡ h.lookup t k
  removed_other t key k e = laws.lookup-remove t key k ∙ rw e refl

smaller : (n size : ℕ) → n < size → (n == size) ≡ false
smaller n size lt = ground arith

abbrev key_of : {K A : Type 0} → Option (MapValue K A) → Option K
key_of none = none
key_of (some slot) = slot.key

module _ {K : Type 0} (h : Hash K) (laws : Laws h) {A : Type 0} where
  -- Two keys are not at one slot.
  pub index_other :
      (m : Map h A) (key k : K) (i j : ℕ)
      → Valid h m
      → h.lookup m.table key ≡ some i
      → h.lookup m.table k ≡ some j
      → h.equal key k ≡ false
      → i ≢ j
  index_other m key k i j v e e' other same =
      let (a, at) = v.indexed key i e in
      let (b, at') = v.indexed k j e' in
      let keys : key ≡ k =
        some-injective key k (ap key_of (sym at ∙ ap (get_elem? m.values) same ∙ at')) in
      let t : true ≡ false = sym (ap (h.equal key) (sym keys) ∙ laws.equal_self key) ∙ other in cc

  abbrev emptied : Map h A → K → ℕ → Map h A
  emptied m key i = record m {
    values = set m.values i free_slot;
    table = h.remove m.table key;
    num_values = m.num_values - 1;
  }

  emptied-Valid :
      (m : Map h A) (key : K) (i : ℕ)
      → Valid h m
      → h.lookup m.table key ≡ some i
      → Valid h (emptied m key i)
  emptied-Valid m key i v e =
      let (a, at) = v.indexed key i e in
      let lt : i < length m.values = get_elem?_lt m.values i (entry h key a) at in
      record {
        sized = length-set m.values i free_slot ∙ v.sized;
        counted = omega (arith, used-empty m.values i (entry h key a, at, refl), v.counted);
        indexed = λ k j e'. elim (Bool-cases (h.equal key k)) [
          | inl same ↦
              absurd
                (let t : none ≡ some j = sym (removed_same h laws m.table key k same) ∙ e' in cc)
          | inr other ↦
              let e'' : h.lookup m.table k ≡ some j =
                sym (removed_other h laws m.table key k other) ∙ e' in
              let (b, at') = v.indexed k j e'' in
              (
                b,
                get_elem?-set_ne m.values i j free_slot (index_other m key k i j v e e'' other)
                    ∙ at',
              )
        ];
        listed = λ j s at_j taken. elim (Bool-cases (i == j)) [
          | inl same ↦ absurd (
              let s_free : free_slot ≡ s = some-injective free_slot s (
                sym (get_elem?-set_self m.values i free_slot lt)
                ∙ ap (get_elem? (set m.values i free_slot)) (==→eq i j same)
                ∙ at_j) in
              let t : true ≡ false = ap is_free s_free ∙ taken in cc)
          | inr other ↦
              let (k, b, s_entry, e') =
                v.listed j s
                  (sym (get_elem?-set_ne m.values i j free_slot (==→ne i j other)) ∙ at_j) taken in
              (
                k,
                b,
                s_entry,
                elim (Bool-cases (h.equal key k)) [
                  | inl same ↦ absurd (
                      ==→ne i j other (
                        some-injective i j
                          (sym e ∙ ap (h.lookup m.table) (laws.equal→eq key k same) ∙ e')))
                  | inr other_key ↦ removed_other h laws m.table key k other_key ∙ e'
                ],
              )
        ];
      }

  emptied-get :
      (m : Map h A) (key : K) (i : ℕ) (k : K)
      → Valid h m
      → h.lookup m.table key ≡ some i
      → get_by_key h (emptied m key i) k ≡ (if h.equal key k then err enoent else get_by_key h m k)
  emptied-get m key i k v e = elim (Bool-cases (h.equal key k)) [
    | inl same ↦
        get_by_key-none h laws (emptied m key i) k (removed_same h laws m.table key k same)
        ∙ rw same refl
    | inr other ↦ rw other (elim (Option-cases (h.lookup m.table k)) [
      | inl absent ↦
          get_by_key-none h laws (emptied m key i) k
            (removed_other h laws m.table key k other ∙ absent)
          ∙ sym (get_by_key-none h laws m k absent)
      | inr (j, e') ↦
          get_by_key-some h laws (emptied m key i) k j
            (removed_other h laws m.table key k other ∙ e')
          ∙ ap (λ o. ok (value_of o))
              (get_elem?-set_ne m.values i j free_slot (index_other m key k i j v e e' other))
          ∙ sym (get_by_key-some h laws m k j e')
    ])
  ]

  -- What a deletion does on each branch.
  abbrev pub Deleted : Map h A → K → Result (Unit {0}) × List (Option A) × Map h A → Type 0
  Deleted m key (ok u, log, m') =
      (a : A) × (get_by_key h m key ≡ ok (some a))
      × (log ≡ destroyed m.destroys (some a))
      × Valid h m'
      × (m'.num_values + 1 ≡ m.num_values)
      × ((k : K) → get_by_key h m' k ≡ (if h.equal key k then err enoent else get_by_key h m k))
      × ((k : K) (val : Option A) → update h m' k val ≡ (err fail, m'))
  Deleted m key (err enoent, log, m') = (get_by_key h m key ≡ err enoent) × (log ≡ []) × (m' ≡ m)
  Deleted m key (err _, log, m') = ⊥

  delete-none :
      (m : Map h A) (key : K) → h.lookup m.table key ≡ none → delete h m key ≡ (err enoent, [], m)
  unfolding delete
  delete-none m key e = rw (e, delete) refl

  delete-some :
      (m : Map h A) (key : K) (i : ℕ)
      → h.lookup m.table key ≡ some i
      → delete h m key
        ≡ (ok tt, destroyed m.destroys (value_of (get_elem? m.values i)), emptied m key i)
  unfolding delete
  delete-some m key i e = rw (e, delete) refl

  -- With a slot unused, every update fails.
  pub update-fail :
      (m : Map h A) (k : K) (val : Option A)
      → (m.num_values == m.size) ≡ false
      → update h m k val ≡ (err fail, m)
  unfolding update
  update-fail m k val e = elim (Option-cases (h.lookup m.table k)) [
    | inl absent ↦ rw (absent, update) refl
    | inr (i, found) ↦ rw (found, update, e) refl
  ]

  -- delete, on a valid map: for a key that is not there it returns -ENOENT and changes nothing. Else it
  -- calls value_func, if there is one, with the key's value; the map is valid and has one value less;
  -- a look-up finds nothing at the key and gives at every other key what it gave before; and
  -- every update then returns -1 and changes nothing, also of a key that is there.
  pub delete-Deleted : (m : Map h A) (key : K) → Valid h m → Deleted m key (delete h m key)
  delete-Deleted m key v = elim (Option-cases (h.lookup m.table key)) [
    | inl absent ↦ rw (delete-none m key absent) (get_by_key-none h laws m key absent, refl, refl)
    | inr (i, e) ↦
        let (a, at) = v.indexed key i e in
        let value_at = ap value_of at in
        let counted = used-empty m.values i (entry h key a, at, refl) in
        let v' = emptied-Valid m key i v e in
        rw (delete-some m key i e) (
          a,
          get_by_key-some h laws m key i e ∙ ap ok value_at,
          ap (destroyed m.destroys) value_at,
          v',
          omega (arith, counted, v.counted),
          λ k. emptied-get m key i k v e,
          λ k val. update-fail (emptied m key i) k val (
              smaller (m.num_values - 1) m.size
                (omega (arith, counted, v.counted, used_le m.values, v.sized))),
        )
  ]
