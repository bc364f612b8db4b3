-- ===== src/Map/Find.antt =====
-- The search of src/map.c for a free slot, and the number of the used ones.
use likwid_bench.Base.{
  ℕ, zero, suc, ◌≤◌, ◌<◌, ◌≡◌, ◌⊎◌, inl, inr, refl, ◌∙◌, ap, some-injective, true, false, some,
  List, [], ◌∷◌, ◌++◌, ◌==◌, ==→eq, ==→ne, if◌then◌else◌, length, get_elem?, set, arith, Bool-cases,
}
use likwid_bench.Map.{MapValue, is_free, free_slot, free_below}

module _ {K A : Type 0} where
  -- How many slots have a value.
  unfoldable pub used : List (MapValue K A) → ℕ
  used [] = 0
  used (slot ∷ slots) = if is_free slot then used slots else suc (used slots)

  pub used_le : (slots : List (MapValue K A)) → used slots ≤ length slots
  unfolding used
  used_le [] = omega arith
  used_le (slot ∷ slots) = elim (Bool-cases (is_free slot)) [
    | inl free ↦ rw free (omega (arith, used_le slots))
    | inr taken ↦ rw taken (omega (arith, used_le slots))
  ]

  -- A slot in bounds that is free, or used.
  abbrev pub FreeAt : List (MapValue K A) → ℕ → Type 0
  FreeAt slots i = (slot : MapValue K A) × (get_elem? slots i ≡ some slot) × (is_free slot ≡ true)

  abbrev pub UsedAt : List (MapValue K A) → ℕ → Type 0
  UsedAt slots i = (slot : MapValue K A) × (get_elem? slots i ≡ some slot) × (is_free slot ≡ false)

  get_elem?_some :
      (slots : List (MapValue K A)) (i : ℕ) → i < length slots → FreeAt slots i ⊎ UsedAt slots i
  get_elem?_some [] i h = absurd (omega arith)
  get_elem?_some (slot ∷ slots) zero h = elim (Bool-cases (is_free slot)) [
    | inl free ↦ inl (slot, refl, free)
    | inr taken ↦ inr (slot, refl, taken)
  ]
  get_elem?_some (slot ∷ slots) (suc i) h = get_elem?_some slots i (omega arith)

  all_used :
      (slots : List (MapValue K A))
      → ((i : ℕ) → i < length slots → UsedAt slots i)
      → used slots ≡ length slots
  unfolding used
  all_used [] h = refl
  all_used (slot ∷ slots) h =
      let (slot', e, taken) = h 0 (omega arith) in
      rw (ap is_free (some-injective slot slot' e) ∙ taken)
        (ap suc (all_used slots (λ i lt. h (suc i) (omega arith))))

  -- The search finds a free slot below `n`, or all are used.
  search :
      (n : ℕ) (slots : List (MapValue K A))
      → n ≤ length slots
      → ((i : ℕ) × (free_below n slots ≡ some i) × FreeAt slots i)
        ⊎ ((i : ℕ) → i < n → UsedAt slots i)
  unfolding free_below
  search zero slots h = inr (λ i lt. absurd (omega arith))
  search (suc n) slots h = elim (get_elem?_some slots n (omega arith)) [
    | inl (slot, e, free) ↦ inl (n, rw (e, free, free_below) refl, (slot, e, free))
    | inr (slot, e, taken) ↦ elim (search n slots (omega arith)) [
      | inl (i, found, free) ↦ inl (i, rw (e, taken, free_below) found, free)
      | inr all ↦ inr λ i lt. elim (Bool-cases (i == n)) [
        | inl same ↦ rw (==→eq i n same) (slot, e, taken)
        | inr other ↦ all i (ground (arith, ==→ne i n other))
      ]
    ]
  ]

  -- Where a slot is unused, the search finds one.
  pub free_below-FreeAt :
      (slots : List (MapValue K A))
      → used slots < length slots
      → (i : ℕ) × (free_below (length slots) slots ≡ some i) × FreeAt slots i
  free_below-FreeAt slots h = elim (search (length slots) slots (omega arith)) [
    | inl found ↦ found
    | inr all ↦ absurd (omega (arith, all_used slots all))
  ]

  pub used-fill :
      (slots : List (MapValue K A)) (i : ℕ) (slot : MapValue K A)
      → FreeAt slots i
      → is_free slot ≡ false
      → used (set slots i slot) ≡ suc (used slots)
  unfolding used
  used-fill [] i slot (s, e, free) taken = cc
  used-fill (t ∷ slots) zero slot (s, e, free) taken =
      rw (taken, ap is_free (some-injective t s e) ∙ free) refl
  used-fill (t ∷ slots) (suc i) slot h taken = elim (Bool-cases (is_free t)) [
    | inl free_t ↦ rw free_t (used-fill slots i slot h taken)
    | inr taken_t ↦ rw taken_t (ap suc (used-fill slots i slot h taken))
  ]

  pub used-empty :
      (slots : List (MapValue K A)) (i : ℕ)
      → UsedAt slots i
      → suc (used (set slots i free_slot)) ≡ used slots
  unfolding used
  used-empty [] i (s, e, taken) = cc
  used-empty (t ∷ slots) zero (s, e, taken) = rw (ap is_free (some-injective t s e) ∙ taken) refl
  used-empty (t ∷ slots) (suc i) h = elim (Bool-cases (is_free t)) [
    | inl free_t ↦ rw free_t (used-empty slots i h)
    | inr taken_t ↦ rw taken_t (ap suc (used-empty slots i h))
  ]

  pub used-append_free :
      (slots : List (MapValue K A)) → used (slots ++ (free_slot ∷ [])) ≡ used slots
  unfolding used
  used-append_free [] = refl
  used-append_free (t ∷ slots) = elim (Bool-cases (is_free t)) [
    | inl free_t ↦ rw free_t (used-append_free slots)
    | inr taken_t ↦ rw taken_t (ap suc (used-append_free slots))
  ]
