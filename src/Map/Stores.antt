-- ===== src/Map/Stores.antt =====
-- Reads of the map of src/map.c, and what a write to a free slot keeps.
use likwid_bench.Base.{
  ℕ, zero, suc, ◌+◌, ◌<◌, ◌≡◌, ◌≢◌, refl, sym, ◌∙◌, ap, true, false, Option, none, some,
  some-injective, Option-cases, List, [], ◌∷◌, ltb, lt→ltb, ◌==◌, ==→eq, ==→ne, length, length-set,
  get_elem?, set, get_elem?-set_self, get_elem?-set_ne, arith, Bool-cases, inl, inr, ok, err,
  enoent,
}
use likwid_bench.Base.Int.{pos}
use likwid_bench.Map.{Hash, MapValue, Map, is_free, value_of, get_by_key, get_by_idx}
use likwid_bench.Map.Find.{FreeAt, used-fill}
use likwid_bench.Map.Valid.{Laws, entry, Valid}

pub get_elem?_lt {ℓ} :
    {B : Type ℓ} (xs : List B) (i : ℕ) (x : B) → get_elem? xs i ≡ some x → i < length xs
get_elem?_lt [] i x e = cc
get_elem?_lt (y ∷ xs) zero x e = omega arith
get_elem?_lt (y ∷ xs) (suc i) x e = omega (arith, get_elem?_lt xs i x e)

module _ {K : Type 0} (h : Hash K) (laws : Laws h) where
  pub lookup_same :
      (t : h.Table) (key k : K) (cell : Option ℕ)
      → h.equal key k ≡ true
      → h.lookup (h.insert t key cell) k ≡ cell
  lookup_same t key k cell e = laws.lookup-insert t key cell k ∙ rw e refl

  pub lookup_other :
      (t : h.Table) (key k : K) (cell : Option ℕ)
      → h.equal key k ≡ false
      → h.lookup (h.insert t key cell) k ≡ h.lookup t k
  lookup_other t key k cell e = laws.lookup-insert t key cell k ∙ rw e refl

  -- What is stored under a key that is not there is not seen, if it lacks its cell.
  pub lookup_null :
      (t : h.Table) (key k : K)
      → h.lookup t key ≡ none
      → h.lookup (h.insert t key none) k ≡ h.lookup t k
  lookup_null t key k fresh = elim (Bool-cases (h.equal key k)) [
    | inl same ↦
        lookup_same t key k none same
        ∙ sym (ap (h.lookup t) (sym (laws.equal→eq key k same)) ∙ fresh)
    | inr other ↦ lookup_other t key k none other
  ]

module _ {K : Type 0} (h : Hash K) (laws : Laws h) {A : Type 0} where
  pub get_by_key-some :
      (m : Map h A) (k : K) (i : ℕ)
      → h.lookup m.table k ≡ some i
      → get_by_key h m k ≡ ok (value_of (get_elem? m.values i))
  unfolding get_by_key
  get_by_key-some m k i e = rw (e, get_by_key) refl

  pub get_by_key-none :
      (m : Map h A) (k : K) → h.lookup m.table k ≡ none → get_by_key h m k ≡ err enoent
  unfolding get_by_key
  get_by_key-none m k e = rw (e, get_by_key) refl

  pub get_by_key-index :
      (m : Map h A) (k : K) (i : ℕ) (val : Option A)
      → h.lookup m.table k ≡ some i
      → get_by_idx h m (pos i) ≡ ok val
      → get_by_key h m k ≡ ok val
  unfolding get_by_key get_by_idx
  get_by_key-index m k i val e at = elim (Bool-cases (ltb i m.size)) [
    | inl lt ↦ get_by_key-some m k i e ∙ (let r = at in simp lt at r)
    | inr out ↦ cc
  ]

  -- No key is at a free slot.
  pub index_ne :
      (m : Map h A) (k : K) (i j : ℕ)
      → Valid h m
      → h.lookup m.table k ≡ some j
      → FreeAt m.values i
      → i ≢ j
  index_ne m k i j v e (slot, at, free) same =
      let (a, at') = v.indexed k j e in
      let t : slot ≡ entry h k a =
        some-injective slot (entry h k a) (sym at ∙ ap (get_elem? m.values) same ∙ at') in
      let u : true ≡ false = sym free ∙ ap is_free t in cc

  abbrev pub filled : Map h A → K → A → ℕ → Map h A
  filled m key a i = record m {
    values = set m.values i (entry h key a);
    table = h.insert m.table key (some i);
    num_values = m.num_values + 1;
  }

  pub filled-Valid :
      (m : Map h A) (key : K) (a : A) (i : ℕ)
      → Valid h m
      → h.lookup m.table key ≡ none
      → FreeAt m.values i
      → Valid h (filled m key a i)
  filled-Valid m key a i v fresh (slot, at, free) =
      let lt : i < length m.values = get_elem?_lt m.values i slot at in
      record {
        sized = length-set m.values i (entry h key a) ∙ v.sized;
        counted =
            omega (arith, used-fill m.values i (entry h key a) (slot, at, free) refl, v.counted);
        indexed = λ k j e. elim (Bool-cases (h.equal key k)) [
          | inl same ↦
              let ij : i ≡ j =
                some-injective i j (sym (lookup_same h laws m.table key k (some i) same) ∙ e) in
              (
                a,
                ap (get_elem? (set m.values i (entry h key a))) (sym ij)
                    ∙ get_elem?-set_self m.values i (entry h key a) lt
                    ∙ ap (λ k'. some (entry h k' a)) (laws.equal→eq key k same),
              )
          | inr other ↦
              let e' : h.lookup m.table k ≡ some j =
                sym (lookup_other h laws m.table key k (some i) other) ∙ e in
              let (b, at') = v.indexed k j e' in
              (
                b,
                get_elem?-set_ne m.values i j (entry h key a)
                      (index_ne m k i j v e' (slot, at, free))
                    ∙ at',
              )
        ];
        listed = λ j s e taken. elim (Bool-cases (i == j)) [
          | inl same ↦
              let ij : i ≡ j = ==→eq i j same in
              (
                key,
                a,
                sym (
                    some-injective (entry h key a) s (
                      sym (get_elem?-set_self m.values i (entry h key a) lt)
                      ∙ ap (get_elem? (set m.values i (entry h key a))) ij
                      ∙ e)),
                lookup_same h laws m.table key key (some i) (laws.equal_self key) ∙ ap some ij,
              )
          | inr other ↦
              let (k, b, s_entry, e') =
                v.listed j s
                  (sym (get_elem?-set_ne m.values i j (entry h key a) (==→ne i j other)) ∙ e)
                  taken in
              (
                k,
                b,
                s_entry,
                elim (Bool-cases (h.equal key k)) [
                  | inl same ↦
                      let k_fresh : h.lookup m.table k ≡ none =
                        ap (h.lookup m.table) (sym (laws.equal→eq key k same)) ∙ fresh in
                      absurd (let c : none ≡ some j = sym k_fresh ∙ e' in cc)
                  | inr other_key ↦ lookup_other h laws m.table key k (some i) other_key ∙ e'
                ],
              )
        ];
      }

  -- A key whose entry in the table is the same has the same value, if a free slot alone was written.
  pub get_kept :
      (m m' : Map h A) (k : K) (i : ℕ) (slot : MapValue K A) (t : h.Table) (n : ℕ)
      → Valid h m
      → Valid h m'
      → m'.table ≡ m.table
      → ((j : ℕ) (s : MapValue K A)
          → get_elem? m.values j ≡ some s
          → get_elem? m'.values j ≡ some s)
      → FreeAt m'.values i
      → h.lookup t k ≡ h.lookup m'.table k
      → get_by_key h (record m' { values = set m'.values i slot; table = t; num_values = n }) k
        ≡ get_by_key h m k
  get_kept m m' k i slot t n v v' same_table kept free same =
      let m2 : Map h A = record m' { values = set m'.values i slot; table = t; num_values = n } in
      elim (Option-cases (h.lookup m.table k)) [
        | inl absent ↦
            get_by_key-none m2 k (same ∙ ap (λ t. h.lookup t k) same_table ∙ absent)
            ∙ sym (get_by_key-none m k absent)
        | inr (j, e) ↦
            let e' = ap (λ t. h.lookup t k) same_table ∙ e in
            let (b, at_j) = v.indexed k j e in
            get_by_key-some m2 k j (same ∙ e')
            ∙ ap (λ o. ok (value_of o))
                (get_elem?-set_ne m'.values i j slot (index_ne m' k i j v' e' free)
                  ∙ kept j (entry h k b) at_j
                  ∙ sym at_j)
            ∙ sym (get_by_key-some m k j e)
      ]

  pub get_by_idx-set :
      (m : Map h A) (i : ℕ) (slot : MapValue K A) (t : h.Table) (n : ℕ)
      → Valid h m
      → FreeAt m.values i
      → get_by_idx h (record m { values = set m.values i slot; table = t; num_values = n }) (pos i)
        ≡ ok slot.value
  unfolding get_by_idx
  get_by_idx-set m i slot t n v (old, at, free) =
      let lt : i < length m.values = get_elem?_lt m.values i old at in
      rw (lt→ltb i m.size (omega (arith, v.sized, lt)))
        (ap (λ o. ok (value_of o)) (get_elem?-set_self m.values i slot lt))
