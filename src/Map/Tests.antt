-- ===== src/Map/Tests.antt =====
-- The map of src/map.c over a hash table that is an association list, at concrete keys and values.
use likwid_bench.Base.{
  ℕ, ◌≡◌, refl, sym, ◌∙◌, ap, true, false, Option, none, some, List, [], ◌∷◌, ◌==◌, ==→eq, ==_self,
  leb, ◌≤◌, arith, if◌then◌else◌, Bool-cases, inl, inr, err, enoent, fail,
}
use likwid_bench.Base.Int.{negsuc}
use likwid_bench.Map.{Hash, Memory, int_max, Map, init, add, get_by_key, update, delete}
use likwid_bench.Map.Valid.{Laws, Valid, entry}
use likwid_bench.Map.Ops.{Added, Fits, add-Added}
use likwid_bench.Map.Ops.Delete.{Deleted, delete-Deleted}
use likwid_bench.Map.Ops.Update.{Updated, update-Updated}
use likwid_bench.Map.Ops.Run.{
  Op, add_value, update_value, delete_key, AllValid, run, made, run-init-AllValid,
}

find : List (ℕ × Option ℕ) → ℕ → Option ℕ
find [] k = none
find ((key, i) ∷ t) k = if key == k then i else find t k

without : List (ℕ × Option ℕ) → ℕ → List (ℕ × Option ℕ)
without [] k = []
without ((key, i) ∷ t) k = if k == key then without t k else (key, i) ∷ without t k

abbrev assoc : Hash ℕ
assoc = record {
  Table = List (ℕ × Option ℕ);
  empty = [];
  lookup = find;
  insert = λ t k cell. (k, cell) ∷ t;
  remove = without;
  equal = λ a b. a == b;
}

find-without :
    (t : List (ℕ × Option ℕ)) (k k' : ℕ)
    → find (without t k) k' ≡ (if k == k' then none else find t k')
unfolding find without
find-without [] k k' = elim (Bool-cases (k == k')) [ inl e ↦ rw e refl | inr e ↦ rw e refl ]
find-without ((key, i) ∷ t) k k' = elim (Bool-cases (k == key)) [
  | inl same ↦ rw same (
      find-without t k k' ∙ elim (Bool-cases (k == k')) [
        | inl e ↦ rw e refl
        | inr e ↦
            let e' : (key == k') ≡ false = ap (λ n. n == k') (sym (==→eq k key same)) ∙ e in
            rw (e, e') refl
      ])
  | inr other ↦ rw other (elim (Bool-cases (key == k')) [
    | inl e ↦
        let e' : (k == k') ≡ false = ap (λ n. k == n) (sym (==→eq key k' e)) ∙ other in
        rw (e, e') refl
    | inr e ↦ rw e (find-without t k k')
  ])
]

assoc_laws : Laws assoc
unfolding find
assoc_laws = record {
  equal→eq = ==→eq;
  equal_self = ==_self;
  lookup-empty = λ k. refl;
  lookup-insert = λ t k i k'. refl;
  lookup-remove = find-without;
}

-- There is memory for up to 1000 slots.
abbrev always : Memory ℕ
always = record { realloc = λ n. leb n 1000; int_dup = λ i. true; key_dup = λ k. true }

below_int_max : (n : ℕ) → leb n 1000 ≡ true → n ≤ int_max
below_int_max n h = ground arith

-- Two keys, of which the second has the slot 1.
abbrev two_keys : Map assoc ℕ
two_keys = record {
  num_values = 2;
  size = 2;
  max_size = negsuc 0;
  table = (9, some 1) ∷ (5, some 0) ∷ [];
  values = entry assoc 5 50 ∷ entry assoc 9 90 ∷ [];
  destroys = true;
}

two_keys-run :
    run assoc always
      (made assoc (init assoc true (negsuc 0) true))
      (add_value 5 50 ∷ add_value 9 90 ∷ [])
    ≡ some two_keys
unfolding run init find
two_keys-run = refl

two_keys-Valid : Valid assoc two_keys
unfolding run init find
two_keys-Valid =
    (run-init-AllValid assoc assoc_laws always (λ i. refl) (λ k. refl) below_int_max (negsuc 0) true
      (add_value 5 50 ∷ add_value 9 90 ∷ [])).0

abbrev four_ops : List (Op ℕ ℕ)
four_ops = add_value 5 50 ∷ add_value 9 90 ∷ delete_key 5 ∷ update_value 9 91 ∷ []

add-Added_example :
    Added assoc assoc_laws always two_keys 7 70 (add assoc always two_keys 7 (some 70))
    × Fits assoc assoc_laws (add assoc always two_keys 7 (some 70))
add-Added_example = add-Added assoc assoc_laws always two_keys 7 70 two_keys-Valid (omega arith)

delete-Deleted_example : Deleted assoc assoc_laws two_keys 5 (delete assoc two_keys 5)
delete-Deleted_example = delete-Deleted assoc assoc_laws two_keys 5 two_keys-Valid

update-Updated_example : Updated assoc assoc_laws two_keys 9 91 (update assoc two_keys 9 (some 91))
update-Updated_example = update-Updated assoc assoc_laws two_keys 9 91 two_keys-Valid refl

run-init-AllValid_example :
    AllValid assoc always (run assoc always (made assoc (init assoc true (negsuc 0) true)) four_ops)
run-init-AllValid_example =
    run-init-AllValid assoc assoc_laws always (λ i. refl) (λ k. refl) below_int_max (negsuc 0) true
      four_ops

-- Behind a deletion, an update of a key that is there fails.
update_lost :
    update assoc ((delete assoc two_keys 5).2) 9 (some 91) ≡ (err fail, (delete assoc two_keys 5).2)
unfolding update delete find without
update_lost = refl

-- Without a cell for its index the second key is added, and not found.
key_lost :
    run assoc
      (record always { int_dup = λ i. i == 0 })
      (made assoc (init assoc true (negsuc 0) true))
      (add_value 5 50 ∷ add_value 9 90 ∷ [])
    ≡ some (record two_keys { table = (9, none) ∷ (5, some 0) ∷ [] })
unfolding run init find
key_lost = refl

key_not_found :
    get_by_key assoc (record two_keys { table = (9, none) ∷ (5, some 0) ∷ [] }) 9 ≡ err enoent
unfolding get_by_key find
key_not_found = refl
