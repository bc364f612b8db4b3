-- ===== src/Map/Ops/Update.antt =====
-- Updates of the map of src/map.c while no slot is unused, and the valid map from `init` on.
use likwid_bench.Base.{
  ℕ, zero, suc, ◌<◌, ◌≡◌, refl, sym, ◌∙◌, ap, Bool, true, false, Option, none, some, some-injective,
  Option-cases, List, [], ◌∷◌, if◌then◌else◌, ◌==◌, ==→eq, ==→ne, length, length-set, get_elem?,
  set, get_elem?-set_self, get_elem?-set_ne, arith, Bool-cases, inl, inr, Result, ok, err, enomem,
  fail,
}
use likwid_bench.Base.Int.{ℤ}
use likwid_bench.Map.{
  Hash, MapValue, Map, is_free, value_of, set_value, with_value, init, get_by_key, update,
}
use likwid_bench.Map.Find.{used}
use likwid_bench.Map.Valid.{Laws, entry, Valid}
use likwid_bench.Map.Stores.{get_elem?_lt, get_by_key-some, get_by_key-none}
use likwid_bench.Map.Ops.Delete.{index_other}

module _ {K A : Type 0} where
  set_value-set :
      (slots : List (MapValue K A)) (i : ℕ) (slot : MapValue K A) (val : Option A)
      → get_elem? slots i ≡ some slot
      → set_value slots i val ≡ set slots i (with_value val slot)
  set_value-set [] i slot val e = cc
  set_value-set (t ∷ slots) zero slot val e =
      ap (λ s. with_value val s ∷ slots) (some-injective t slot e)
  set_value-set (t ∷ slots) (suc i) slot val e =
      ap (λ ss. t ∷ ss) (set_value-set slots i slot val e)

  used-replace :
      (slots : List (MapValue K A)) (i : ℕ) (old slot : MapValue K A)
      → get_elem? slots i ≡ some old
      → is_free old ≡ false
      → is_free slot ≡ false
      → used (set slots i slot) ≡ used slots
  unfolding used
  used-replace [] i old slot e taken taken' = refl
  used-replace (t ∷ slots) zero old slot e taken taken' =
      rw (taken', ap is_free (some-injective t old e) ∙ taken) refl
  used-replace (t ∷ slots) (suc i) old slot e taken taken' = elim (Bool-cases (is_free t)) [
    | inl free ↦ rw free (used-replace slots i old slot e taken taken')
    | inr other ↦ rw other (ap suc (used-replace slots i old slot e taken taken'))
  ]

same_count : (n size : ℕ) → n ≡ size → (n == size) ≡ true
same_count n size e = ground arith

module _ {K : Type 0} (h : Hash K) (laws : Laws h) {A : Type 0} where
  abbrev changed : Map h A → K → A → ℕ → Map h A
  changed m key a i = record m { values = set m.values i (entry h key a) }

  changed-Valid :
      (m : Map h A) (key : K) (a : A) (i : ℕ)
      → Valid h m
      → h.lookup m.table key ≡ some i
      → Valid h (changed m key a i)
  changed-Valid m key a i v e =
      let (old, at) = v.indexed key i e in
      let lt : i < length m.values = get_elem?_lt m.values i (entry h key old) at in
      let self = get_elem?-set_self m.values i (entry h key a) lt in
      record {
        sized = length-set m.values i (entry h key a) ∙ v.sized;
        counted =
            used-replace m.values i (entry h key old) (entry h key a) at refl refl ∙ v.counted;
        indexed = λ k j e'. elim (Bool-cases (h.equal key k)) [
          | inl same ↦
              let keys = laws.equal→eq key k same in
              let ij : i ≡ j = some-injective i j (sym e ∙ ap (h.lookup m.table) keys ∙ e') in
              (
                a,
                ap (get_elem? (set m.values i (entry h key a))) (sym ij)
                    ∙ self
                    ∙ ap (λ k'. some (entry h k' a)) keys,
              )
          | inr other ↦
              let (b, at') = v.indexed k j e' in
              (
                b,
                get_elem?-set_ne m.values i j (entry h key a)
                      (index_other h laws m key k i j v e e' other)
                    ∙ at',
              )
        ];
        listed = λ j s at_j taken. elim (Bool-cases (i == j)) [
          | inl same ↦
              let ij : i ≡ j = ==→eq i j same in
              (
                key,
                a,
                sym (
                    some-injective (entry h key a) s
                      (sym self ∙ ap (get_elem? (set m.values i (entry h key a))) ij ∙ at_j)),
                e ∙ ap some ij,
              )
          | inr other ↦
              v.listed j s
                (sym (get_elem?-set_ne m.values i j (entry h key a) (==→ne i j other)) ∙ at_j) taken
        ];
      }

  changed-get :
      (m : Map h A) (key : K) (a : A) (i : ℕ) (k : K)
      → Valid h m
      → h.lookup m.table key ≡ some i
      → get_by_key h (changed m key a i) k
        ≡ (if h.equal key k then ok (some a) else get_by_key h m k)
  changed-get m key a i k v e =
      let (old, at) = v.indexed key i e in
      let lt : i < length m.values = get_elem?_lt m.values i (entry h key old) at in
      elim (Bool-cases (h.equal key k)) [
        | inl same ↦
            get_by_key-some h laws (changed m key a i) k i
              (ap (h.lookup m.table) (sym (laws.equal→eq key k same)) ∙ e)
            ∙ ap (λ o. ok (value_of o)) (get_elem?-set_self m.values i (entry h key a) lt)
            ∙ rw same refl
        | inr other ↦ rw other (elim (Option-cases (h.lookup m.table k)) [
          | inl absent ↦
              get_by_key-none h laws (changed m key a i) k absent
              ∙ sym (get_by_key-none h laws m k absent)
          | inr (j, e') ↦
              get_by_key-some h laws (changed m key a i) k j e'
              ∙ ap (λ o. ok (value_of o))
                  (get_elem?-set_ne m.values i j (entry h key a)
                    (index_other h laws m key k i j v e e' other))
              ∙ sym (get_by_key-some h laws m k j e')
        ])
      ]

  update-some :
      (m : Map h A) (key : K) (a : A) (i : ℕ)
      → Valid h m
      → h.lookup m.table key ≡ some i
      → (m.num_values == m.size) ≡ true
      → update h m key (some a) ≡ (ok (i, value_of (get_elem? m.values i)), changed m key a i)
  unfolding update
  update-some m key a i v e full =
      let (old, at) = v.indexed key i e in
      rw (e, update, full, set_value-set m.values i (entry h key old) (some a) at) refl

  -- What an update does where no slot is unused.
  abbrev pub Updated : Map h A → K → A → Result (ℕ × Option A) × Map h A → Type 0
  Updated m key a (ok (i, old), m') =
      (get_by_key h m key ≡ ok old)
      × Valid h m'
      × (m'.num_values ≡ m.num_values)
      × ((k : K) → get_by_key h m' k ≡ (if h.equal key k then ok (some a) else get_by_key h m k))
  Updated m key a (err e, m') = (e ≡ fail) × (h.lookup m.table key ≡ none) × (m' ≡ m)

  update-none :
      (m : Map h A) (key : K) (a : A)
      → h.lookup m.table key ≡ none
      → update h m key (some a) ≡ (err fail, m)
  unfolding update
  update-none m key a e = rw (e, update) refl

  -- update, on a valid map in which no slot is unused (no value has been deleted since it grew), for
  -- a value that is not NULL: for a key that is not there it returns -1 and changes nothing. Else
  -- it hands out the old value of the key; the map is valid and has as many values; a look-up gives
  -- the new value at the key and what it gave before at every other key.
  pub update-Updated :
      (m : Map h A) (key : K) (a : A)
      → Valid h m
      → m.num_values ≡ m.size
      → Updated m key a (update h m key (some a))
  update-Updated m key a v full = elim (Option-cases (h.lookup m.table key)) [
    | inl absent ↦ rw (update-none m key a absent) (refl, absent, refl)
    | inr (i, e) ↦ rw (update-some m key a i v e (same_count m.num_values m.size full)) (
      get_by_key-some h laws m key i e,
      changed-Valid m key a i v e,
      refl,
      λ k. changed-get m key a i k v e,
    )
  ]

module _ {K : Type 0} (h : Hash K) (laws : Laws h) (A : Type 0) where
  abbrev pub Initial : Bool → Result (Map h A) → Type 0
  Initial malloc (ok m) = Valid h m × (m.num_values ≡ 0) × ((k : K) → h.lookup m.table k ≡ none)
  Initial malloc (err e) = (e ≡ enomem) × (malloc ≡ false)

  pub init-Initial :
      (malloc : Bool) (max_size : ℤ) (destroys : Bool)
      → Initial malloc (init h malloc max_size destroys)
  unfolding init used
  init-Initial true max_size destroys = (
    record {
      sized = refl;
      counted = refl;
      indexed = λ k i e. absurd (let t : none ≡ some i = sym (laws.lookup-empty k) ∙ e in cc);
      listed = λ i slot e taken. cc;
    },
    refl,
    laws.lookup-empty,
  )
  init-Initial false max_size destroys = (refl, refl)
