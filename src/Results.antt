-- ===== src/Results.antt =====
-- `RuntimeWorkgroupResult` of include/test_types.h and the functions of src/results.c that store in it
-- and read it: two maps from names to texts. A number is kept as the text that it is printed to.
pub mod Growth
pub mod Entries
pub mod Dictionary
mod Tests
use likwid_bench.Base.{
  ℕ, zero, suc, Bool, true, false, Option, none, some, List, [], ◌∷◌, if◌then◌else◌, Result, ok,
  err, einval, enoent, eexist, enomem,
}
use likwid_bench.Base.Int.{negsuc}
use likwid_bench.Base.Strings.{Str}
use likwid_bench.Map.{Hash, Memory, Map, init, add, get_by_key, update}

-- The maps, `NULL` as `none`.
pub record WorkgroupResult (h : Hash Str) : Type 0 where
  pub values : Option (Map h Str)
  pub variables : Option (Map h Str)

-- `malloc` says for each of the two maps whether it gets its memory.
unfoldable pub init_result : (h : Hash Str) (malloc1 malloc2 : Bool) → Result (WorkgroupResult h)
unfolding init
init_result h malloc1 malloc2 = elim (init h malloc1 (negsuc 0) true) [
  | err e ↦ err e
  | ok values ↦ elim (init h malloc2 (negsuc 0) true) [
    | err e ↦ err e
    | ok variables ↦ ok (record { values = some values; variables = some variables })
  ]
]

module _ (h : Hash Str) (mem : Memory Str) where
  -- The result of `add_bmap`, whose index is dropped.
  abbrev pub code_of : Option (Result ℕ × Map h Str) → Option (Result (Unit {0}) × Map h Str)
  code_of none = none
  code_of (some (ok i, m)) = some (ok tt, m)
  code_of (some (err e, m)) = some (err e, m)

  -- `add_value` and `add_variable`, in the map of theirs. Without a text nothing is added.
  unfoldable pub add_text : Map h Str → Str → Option Str → Option (Result (Unit {0}) × Map h Str)
  unfolding get_by_key add
  add_text m name text = elim (get_by_key h m name) [
    | ok v ↦ some (err eexist, m)
    | err enoent ↦ elim text [
      | none ↦ some (ok tt, m)
      | some v ↦ code_of (add h mem m name (some v))
    ]
    | err e ↦ some (err eexist, m)
  ]

  -- `update_value` and `update_variable`, which return 0 also where `update_bmap` fails.
  unfoldable pub update_text : Map h Str → Str → Option Str → Result (Unit {0}) × Map h Str
  unfolding get_by_key update
  update_text m name text = elim (get_by_key h m name) [
    | err e ↦ (err enoent, m)
    | ok v ↦ elim text [ none ↦ (ok tt, m) | some t ↦ (ok tt, (update h m name (some t)).1) ]
  ]

-- The calls that store something; `D` is `double`.
pub data Call (D : Type 0) : Type 0 where
  add_value update_value : Str → D → Call D
  add_variable update_variable : Str → Str → Call D

module _ (h : Hash Str) (mem : Memory Str) {D : Type 0} (bformat : D → Option Str) where
  abbrev with_values :
      WorkgroupResult h
      → Option (Result (Unit {0}) × Map h Str)
      → Option (Result (Unit {0}) × WorkgroupResult h)
  with_values r none = none
  with_values r (some (code, m)) = some (code, record r { values = some m })

  abbrev with_variables :
      WorkgroupResult h
      → Option (Result (Unit {0}) × Map h Str)
      → Option (Result (Unit {0}) × WorkgroupResult h)
  with_variables r none = none
  with_variables r (some (code, m)) = some (code, record r { variables = some m })

  -- `bformat` prints a number; `none` is a write outside of the array of a map.
  unfoldable pub call : WorkgroupResult h → Call D → Option (Result (Unit {0}) × WorkgroupResult h)
  unfolding add_text update_text
  call r (add_value name x) = elim (r.values) [
    | none ↦ some (err einval, r)
    | some m ↦ with_values r (add_text h mem m name (bformat x))
  ]
  call r (update_value name x) = elim (r.values) [
    | none ↦ some (err einval, r)
    | some m ↦ with_values r (some (update_text h mem m name (bformat x)))
  ]
  call r (add_variable name v) = elim (r.variables) [
    | none ↦ some (err einval, r)
    | some m ↦ with_variables r (add_text h mem m name (some v))
  ]
  call r (update_variable name v) = elim (r.variables) [
    | none ↦ some (err einval, r)
    | some m ↦ with_variables r (some (update_text h mem m name (some v)))
  ]

  -- Calls one after another, with their codes.
  unfoldable pub calls :
      WorkgroupResult h → List (Call D) → Option (List (Result (Unit {0})) × WorkgroupResult h)
  unfolding call
  calls r [] = some ([], r)
  calls r (c ∷ cs) = elim (call r c) [
    | none ↦ none
    | some (code, r') ↦ elim (calls r' cs) [
      | none ↦ none
      | some (codes, r'') ↦ some (code ∷ codes, r'')
    ]
  ]

-- `get_value`, and `get_variable` with `strtoumax` for `strtold`. A missing text leaves the number as it is.
unfoldable pub get_number :
    (h : Hash Str) {N : Type 0} (parse : Str → N) → Option (Map h Str) → Str → Result (Option N)
unfolding get_by_key
get_number h parse none name = err einval
get_number h parse (some m) name = elim (get_by_key h m name) [
  | err e ↦ err e
  | ok none ↦ ok none
  | ok (some v) ↦ ok (some (parse v))
]
