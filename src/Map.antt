-- ===== src/Map.antt =====
-- src/map.c: a map from keys to pointers over a hash table from keys to the indices of an array. The
-- functions that the file's macros generate differ in the key type alone, which is `K` here; the
-- hash table (the copy of GLib's in src/ghash.c) is the interface `Hash`. The index cells that the
-- hash table owns are their contents; `id` and `key_type`, which nothing reads, are left out.
-- `Valid` has the invariant, `Find` the search for a free slot, `Stores` the reads and writes, `Ops` the operations against it.
pub mod Valid
pub mod Find
pub mod Stores
pub mod Ops
mod Tests
use likwid_bench.Base.{
  ℕ, zero, suc, ◌+◌, ◌-◌, ◌^◌, Bool, true, false, ◌&&◌, Option, none, some, List, [], ◌∷◌, ◌++◌,
  ltb, ◌==◌, if◌then◌else◌, get_elem?, set, Result, ok, err, Errno, enomem, enoent, eexist, enospc,
  fail,
}
use likwid_bench.Base.Int.{ℤ, pos, negsuc}

-- What the map uses of a hash table whose values are indices; NULL for a value is `none`, for which a
-- look-up gives what it gives for a key that is not there.
pub record Hash (K : Type 0) : Type 1 where
  pub Table : Type 0
  pub empty : Table
  pub lookup : Table → K → Option ℕ
  pub insert : Table → K → Option ℕ → Table
  pub remove : Table → K → Table
  pub equal : K → K → Bool

-- For which sizes `realloc` succeeds, for which indices `int_dup` gets a cell, and which keys are
-- copied. Only `bstrcpy` can fail on a key: an integer is its own copy, and `g_strdup` does not
-- return NULL.
pub record Memory (K : Type 0) : Type 0 where
  pub realloc : ℕ → Bool
  pub int_dup : ℕ → Bool
  pub key_dup : K → Bool

-- The copy of the key and the cell of the index, NULL if there is no memory for them.
abbrev pub key_copy : {K : Type 0} → Memory K → K → Option K
key_copy mem key = if mem.key_dup key then some key else none

abbrev pub index_cell : {K : Type 0} → Memory K → ℕ → Option ℕ
index_cell mem i = if mem.int_dup i then some i else none

-- `g_hash_table_insert` with both as they are. No key is equal to NULL (`bstrcmp` fails on it), so
-- that no look-up sees an entry under NULL.
abbrev pub insert_copy : {K : Type 0} (h : Hash K) → h.Table → Option K → Option ℕ → h.Table
insert_copy h table none cell = table
insert_copy h table (some key) cell = h.insert table key cell

-- INT_MAX
abbrev pub int_max : ℕ
int_max = 2 ^ 31 - 1

-- `MapValue`; NULL is `none`.
pub record MapValue (K A : Type 0) : Type 0 where
  pub key : Option K
  pub value : Option A

abbrev pub is_free : {K A : Type 0} → MapValue K A → Bool
is_free slot = elim (slot.value) [ none ↦ true | some a ↦ false ]

-- `max_size > 0 && size == max_size`
abbrev pub is_bound : ℤ → ℕ → Bool
is_bound (pos n) size = ltb 0 n && size == n
is_bound (negsuc n) size = false

module _ {K A : Type 0} where
  abbrev pub free_slot : MapValue K A
  free_slot = record { key = none; value = none }

  -- `while (idx >= 0 && values[idx].value != NULL) idx--`, from below `n`; `none` is the index -1.
  unfoldable pub free_below : ℕ → List (MapValue K A) → Option ℕ
  free_below zero values = none
  free_below (suc n) values = elim (get_elem? values n) [
    | none ↦ none
    | some slot ↦ let below = free_below n values in if is_free slot then some n else below
  ]

  -- `values[i].value`, where an index out of bounds reads as NULL.
  abbrev pub value_of : Option (MapValue K A) → Option A
  value_of none = none
  value_of (some slot) = slot.value

  abbrev pub with_value : Option A → MapValue K A → MapValue K A
  with_value val slot = record slot { value = val }

  abbrev pub set_value : List (MapValue K A) → ℕ → Option A → List (MapValue K A)
  set_value [] i val = []
  set_value (slot ∷ slots) zero val = with_value val slot ∷ slots
  set_value (slot ∷ slots) (suc i) val = slot ∷ set_value slots i val

  -- `destroy_map_func`: the values that `value_func` is called with.
  abbrev pub destroyed_all : List (MapValue K A) → List A
  destroyed_all [] = []
  destroyed_all (slot ∷ slots) = elim (slot.value) [
    | none ↦ destroyed_all slots
    | some a ↦ a ∷ destroyed_all slots
  ]

-- The call of `value_func`, if there is one, as the list of the values that it is called with.
abbrev pub destroyed {ℓ} : {A : Type ℓ} → Bool → Option A → List (Option A)
destroyed true val = val ∷ []
destroyed false val = []

module _ {K : Type 0} (h : Hash K) (A : Type 0) where
  -- `Map`. `max_size` is -1 for no bound; `destroys` says whether there is a `value_func`.
  pub record Map : Type 0 where
    pub num_values : ℕ
    pub size : ℕ
    pub max_size : ℤ
    pub table : h.Table
    pub values : List (MapValue K A)
    pub destroys : Bool

module _ {K : Type 0} (h : Hash K) {A : Type 0} where
  -- `_init_map`, for a key type that it knows; `malloc` may fail.
  unfoldable pub init : Bool → ℤ → Bool → Result (Map h A)
  init malloc max_size destroys =
      if malloc
      then ok (record {
        num_values = 0;
        size = 0;
        max_size = max_size;
        table = h.empty;
        values = [];
        destroys = destroys;
      })
      else err enomem

  -- The array grows by one slot where it is full; `realloc` says for which sizes it succeeds.
  unfoldable pub reserve : (ℕ → Bool) → Map h A → Result (Map h A)
  reserve realloc m =
      if m.num_values == m.size
      then (if is_bound m.max_size m.size
          then err enospc
          else if realloc (m.size + 1)
          then ok (record m { values = m.values ++ (free_slot ∷ []); size = m.size + 1 })
          else err enomem)
      else ok m

  -- The new slot; `none` is a write to `values[-1]`.
  abbrev pub fill_at : Memory K → Map h A → K → Option A → Option ℕ → Option (Result ℕ × Map h A)
  fill_at mem m key val none = none
  fill_at mem m key val (some i) = some (
    ok i,
    record m {
      values = set m.values i (record { key = key_copy mem key; value = val });
      table = insert_copy h m.table (key_copy mem key) (index_cell mem i);
      num_values = m.num_values + 1;
    },
  )

  unfoldable pub fill : Memory K → Map h A → K → Option A → Option (Result ℕ × Map h A)
  unfolding free_below
  fill mem m key val =
      if ltb m.num_values m.size
      then fill_at mem m key val (free_below m.size m.values)
      else some (err fail, m)

  abbrev pub fill_reserved :
      Memory K → Map h A → K → Option A → Result (Map h A) → Option (Result ℕ × Map h A)
  fill_reserved mem m key val (err e) = some (err e, m)
  fill_reserved mem m key val (ok m') = fill mem m' key val

  -- `add_map_func`: the index of the new value.
  unfoldable pub add : Memory K → Map h A → K → Option A → Option (Result ℕ × Map h A)
  unfolding reserve fill
  add mem m key val = elim (h.lookup m.table key) [
    | some i ↦ some (err eexist, m)
    | none ↦ fill_reserved mem m key val (reserve mem.realloc m)
  ]

  -- `get_map_func`: the value written to `*val`.
  unfoldable pub get_by_key : Map h A → K → Result (Option A)
  get_by_key m key = elim (h.lookup m.table key) [
    | none ↦ err enoent
    | some i ↦ ok (value_of (get_elem? m.values i))
  ]

  -- `getidx_map_func`
  unfoldable pub get_by_idx : Map h A → ℤ → Result (Option A)
  get_by_idx m (pos i) = if ltb i m.size then ok (value_of (get_elem? m.values i)) else err enoent
  get_by_idx m (negsuc i) = err enoent

  -- `get_idx_for_key`
  unfoldable pub idx_for_key : Map h A → K → Result ℕ
  idx_for_key m key = elim (h.lookup m.table key) [ none ↦ err enoent | some i ↦ ok i ]

  -- `update_map_func`: the index and the value written to `*old`, and the map behind it.
  unfoldable pub update : Map h A → K → Option A → Result (ℕ × Option A) × Map h A
  update m key val = elim (h.lookup m.table key) [
    | none ↦ (err fail, m)
    | some i ↦
        if m.num_values == m.size
        then (
          ok (i, value_of (get_elem? m.values i)),
          record m { values = set_value m.values i val },
        )
        else (err fail, m)
  ]

  -- `delete_map_func`. Behind a key that is found there is a value to count down, see `Valid`.
  unfoldable pub delete : Map h A → K → Result (Unit {0}) × List (Option A) × Map h A
  delete m key = elim (h.lookup m.table key) [
    | none ↦ (err enoent, [], m)
    | some i ↦ (
      ok tt,
      destroyed m.destroys (value_of (get_elem? m.values i)),
      record m {
        values = set m.values i free_slot;
        table = h.remove m.table key;
        num_values = m.num_values - 1;
      },
    )
  ]

  unfoldable pub destroy : Map h A → List A
  destroy m = if m.destroys then destroyed_all m.values else []

  -- `size_map_func`
  unfoldable pub get_size : Map h A → ℕ
  get_size m = m.num_values
