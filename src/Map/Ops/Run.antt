-- ===== src/Map/Ops/Run.antt =====
-- Any sequence of operations on a map of src/map.c, from `init` on.
use likwid_bench.Base.{
  ℕ, ◌+◌, ◌≤◌, ◌≡◌, refl, arith, Option-cases, ◌⊎◌, ap, Bool, true, Option, none, some, List, [],
  ◌∷◌, ◌==◌, ==→eq, Bool-cases, inl, inr, Result, ok, err, enoent, eexist, enospc, enomem,
}
use likwid_bench.Base.Int.{ℤ}
use likwid_bench.Map.{Hash, Memory, int_max, Map, init, add, update, delete}
use likwid_bench.Map.Valid.{Laws, Valid}
use likwid_bench.Map.Ops.{Added, add_lem, has_cells}
use likwid_bench.Map.Ops.Delete.{Deleted, delete-Deleted, update-fail}
use likwid_bench.Map.Ops.Update.{Updated, update-Updated, init-Initial}

-- The calls that change a map; the values are not NULL.
pub data Op (K A : Type 0) : Type 0 where
  add_value : K → A → Op K A
  update_value : K → A → Op K A
  delete_key : K → Op K A

module _ {K : Type 0} (h : Hash K) {A : Type 0} (mem : Memory K) where
  abbrev added : Option (Result ℕ × Map h A) → Option (Map h A)
  added none = none
  added (some (r, m)) = some m

  -- `none` is a write outside the array.
  unfoldable pub step : Map h A → Op K A → Option (Map h A)
  unfolding add update delete
  step m (add_value key a) = added (add h mem m key (some a))
  step m (update_value key a) = some ((update h m key (some a)).1)
  step m (delete_key key) = some ((delete h m key).2)

  unfoldable pub run : Option (Map h A) → List (Op K A) → Option (Map h A)
  unfolding step
  run none ops = none
  run (some m) [] = some m
  run (some m) (op ∷ ops) = run (step m op) ops

  abbrev pub AllValid : Option (Map h A) → Type 0
  AllValid none = ⊥
  AllValid (some m) = Valid h m × (m.size ≤ int_max)

size_le :
    (n n' : ℕ) (grows : Bool)
    → n ≤ int_max
    → (grows ≡ true → n + 1 ≤ int_max)
    → (n' ≡ n) ⊎ ((n' ≡ n + 1) × (grows ≡ true))
    → n' ≤ int_max
size_le n n' grows le room (inl same) = omega arith
size_le n n' grows le room (inr (more, got)) = omega (arith, room got)

module _ {K : Type 0} (h : Hash K) {A : Type 0} where
  abbrev pub made : Result (Map h A) → Option (Map h A)
  made (ok m) = some m
  made (err e) = none

  update_size : (m : Map h A) (key : K) (val : Option A) → (((update h m key val).1).size ≡ m.size)
  unfolding update
  update_size m key val = elim (Option-cases (h.lookup m.table key)) [
    | inl e ↦ rw (e, update) refl
    | inr (i, e) ↦ elim (Bool-cases (m.num_values == m.size)) [
      | inl full ↦ rw (e, update, full) refl
      | inr unused ↦ rw (e, update, unused) refl
    ]
  ]

  delete_size : (m : Map h A) (key : K) → (((delete h m key).2).size ≡ m.size)
  unfolding delete
  delete_size m key = elim (Option-cases (h.lookup m.table key)) [
    | inl e ↦ rw (e, delete) refl
    | inr (i, e) ↦ rw (e, delete) refl
  ]

module _ {K : Type 0} (h : Hash K) (laws : Laws h) {A : Type 0} (mem : Memory K)
    (cells : (i : ℕ) → mem.int_dup i ≡ true) (copies : (k : K) → mem.key_dup k ≡ true)
    (room : (n : ℕ) → mem.realloc n ≡ true → n ≤ int_max) where
  along : (m m' : Map h A) → m' ≡ m → Valid h m → Valid h m'
  along m m' e v = rw e v

  along-AllValid :
      (m m' : Map h A) → m' ≡ m → Valid h m × (m.size ≤ int_max) → AllValid h mem (some m')
  along-AllValid m m' e v = rw e v

  added-AllValid :
      (m : Map h A) (key : K) (a : A) (r : Option (Result ℕ × Map h A))
      → Valid h m × (m.size ≤ int_max)
      → Added h laws mem m key a r
      → AllValid h mem (added h mem r)
  added-AllValid m key a none v f = absurd f
  added-AllValid m key a (some (ok i, m')) (v, le) (fresh, size, inl (all, written)) =
      (written.0, size_le m.size m'.size (mem.realloc (m.size + 1)) le (room (m.size + 1)) size)
  added-AllValid m key a (some (ok i, m')) v (fresh, size, inr (lacking, lost)) =
      let k : has_cells mem key i ≡ true = rw (copies key, cells i) refl in cc
  added-AllValid m key a (some (err eexist, m')) v f = along-AllValid m m' (f.0) v
  added-AllValid m key a (some (err enospc, m')) v f = along-AllValid m m' (f.0) v
  added-AllValid m key a (some (err enomem, m')) v f = along-AllValid m m' (f.0) v
  added-AllValid m key a (some (err _, m')) v f = absurd f

  delete-Valid :
      (m : Map h A) (key : K) (r : Result (Unit {0}) × List (Option A) × Map h A)
      → Valid h m
      → Deleted h laws m key r
      → Valid h (r.2)
  delete-Valid m key (ok u, log, m') v f = f.3
  delete-Valid m key (err enoent, log, m') v (got, logged, same) = along m m' same v
  delete-Valid m key (err _, log, m') v f = absurd f

  update-Valid :
      (m : Map h A) (key : K) (a : A) (r : Result (ℕ × Option A) × Map h A)
      → Valid h m
      → Updated h laws m key a r
      → Valid h (r.1)
  update-Valid m key a (ok (i, old), m') v f = f.1
  update-Valid m key a (err e, m') v (failed, absent, same) = along m m' same v

  updated-Valid :
      (m : Map h A) (key : K) (a : A) → Valid h m → Valid h ((update h m key (some a)).1)
  updated-Valid m key a v = elim (Bool-cases (m.num_values == m.size)) [
    | inl full ↦
        update-Valid m key a (update h m key (some a)) v
          (update-Updated h laws m key a v (==→eq m.num_values m.size full))
    | inr unused ↦
        along m ((update h m key (some a)).1)
          (ap (λ r. r.1) (update-fail h laws m key (some a) unused)) v
  ]

  step-AllValid :
      (m : Map h A) (op : Op K A)
      → Valid h m × (m.size ≤ int_max)
      → AllValid h mem (step h mem m op)
  unfolding step
  step-AllValid m (add_value key a) v =
      added-AllValid m key a (add h mem m key (some a)) v (add_lem h laws mem m key a (v.0))
  step-AllValid m (delete_key key) (v, le) = (
    delete-Valid m key (delete h m key) v (delete-Deleted h laws m key v),
    omega (arith, delete_size h m key),
  )
  step-AllValid m (update_value key a) (v, le) =
      (updated-Valid m key a v, omega (arith, update_size h m key (some a)))

  run-AllValid :
      (o : Option (Map h A)) (ops : List (Op K A))
      → AllValid h mem o
      → AllValid h mem (run h mem o ops)
  unfolding run
  run-AllValid none ops v = v
  run-AllValid (some m) [] v = v
  run-AllValid (some m) (op ∷ ops) v = run-AllValid (step h mem m op) ops (step-AllValid m op v)

  -- From init on, with the memory for the map, for the copies of the keys and for the index cells, and
  -- where realloc gives no more than INT_MAX entries, any sequence of additions, updates and
  -- deletions, their errors included, never writes outside the array, and leaves a valid map: the
  -- array has the size counted, num_values counts the values in it, the table sends every key that
  -- it has to the slot of that key, and every slot with a value is the slot of a key; the size is at
  -- most INT_MAX.
  pub run-init-AllValid :
      (max_size : ℤ) (destroys : Bool) (ops : List (Op K A))
      → AllValid h mem (run h mem (made h (init h true max_size destroys)) ops)
  unfolding init
  run-init-AllValid max_size destroys ops =
      run-AllValid (made h (init h true max_size destroys)) ops
        ((init-Initial h laws A true max_size destroys).0, omega arith)
