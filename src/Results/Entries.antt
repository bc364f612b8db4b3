-- ===== src/Results/Entries.antt =====
-- One map of src/results.c as a dictionary of texts.
use likwid_bench.Base.{
  ℕ, ◌+◌, ◌≡◌, refl, sym, ◌∙◌, ap, true, false, Option, none, some, Option-cases, ◌==◌,
  if◌then◌else◌, Bool-cases, inl, inr, Result, ok, err, enoent, eexist, enospc, enomem, arith,
}
use likwid_bench.Base.Int.{negsuc}
use likwid_bench.Base.Strings.{Str}
use likwid_bench.Map.{Hash, Memory, Map, is_bound, add, get_by_key, update}
use likwid_bench.Map.Valid.{Laws, Valid}
use likwid_bench.Map.Stores.{get_by_key-some, get_by_key-none}
use likwid_bench.Map.Ops.{Added, add_lem, has_cells}
use likwid_bench.Map.Ops.Update.{Updated, update-Updated}
use likwid_bench.Results.{code_of, add_text, update_text}
use likwid_bench.Results.Growth.{Grown, add-Grown, update-size}

abbrev pub Dict : Type 0
Dict = Str → Option Str

-- What `get_bmap_by_key` returns for an entry.
abbrev pub found : Option Str → Result (Option Str)
found none = err enoent
found (some v) = ok (some v)

module _ (h : Hash Str) where
  abbrev pub put : Dict → Str → Str → Dict
  put d name t k = if h.equal name k then some t else d k

  -- The first text that is added for a name stays, and without a text nothing is added.
  abbrev pub dict_add : Dict → Str → Option Str → Result (Unit {0}) × Dict
  dict_add d name text = elim (d name) [
    | some v ↦ (err eexist, d)
    | none ↦ elim text [ none ↦ (ok tt, d) | some t ↦ (ok tt, put d name t) ]
  ]

  -- Only a name that is there is updated.
  abbrev pub dict_update : Dict → Str → Option Str → Result (Unit {0}) × Dict
  dict_update d name text = elim (d name) [
    | none ↦ (err enoent, d)
    | some v ↦ elim text [ none ↦ (ok tt, d) | some t ↦ (ok tt, put d name t) ]
  ]

  -- The map has the entries of the dictionary, no slot that is unused, and no bound.
  pub record Holds (m : Map h Str) (d : Dict) : Type 0 where
    pub valid : Valid h m
    pub full : m.num_values ≡ m.size
    pub open_end : m.max_size ≡ negsuc 0
    pub texts : (k : Str) → get_by_key h m k ≡ found (d k)

-- Memory is given whenever it is asked for.
pub record Given (mem : Memory Str) : Type 0 where
  pub grows : (n : ℕ) → mem.realloc n ≡ true
  pub cells : (i : ℕ) → mem.int_dup i ≡ true
  pub copies : (k : Str) → mem.key_dup k ≡ true

module _ (h : Hash Str) (laws : Laws h) (mem : Memory Str) (given : Given mem) where
  put-texts :
      (m m' : Map h Str) (d : Dict) (name t : Str)
      → ((k : Str) → get_by_key h m k ≡ found (d k))
      → ((k : Str) → get_by_key h m' k ≡ (if h.equal name k then ok (some t) else get_by_key h m k))
      → (k : Str) → get_by_key h m' k ≡ found (put h d name t k)
  put-texts m m' d name t texts written k = written k ∙ elim (Bool-cases (h.equal name k)) [
    | inl same ↦ rw same refl
    | inr other ↦ rw other (texts k)
  ]

  Added-Holds :
      (m : Map h Str) (d : Dict) (name t : Str) (r : Option (Result ℕ × Map h Str))
      → Holds h m d
      → get_by_key h m name ≡ err enoent
      → Added h laws mem m name t r
      → Grown h m r
      → (m' : Map h Str) × (code_of h mem r ≡ some (ok tt, m')) × Holds h m' (put h d name t)
  Added-Holds m d name t none hold fresh f g = absurd f
  Added-Holds m d name t (some (ok i, m')) hold fresh (absent, size, inl (all, written)) g = (
    m',
    refl,
    record {
      valid = written.0;
      full = omega (arith, written.1, hold.full, g.0);
      open_end = g.1 ∙ hold.open_end;
      texts = put-texts m m' d name t hold.texts (written.3);
    },
  )
  Added-Holds m d name t (some (ok i, m')) hold fresh (absent, size, inr (lacking, lost)) g =
      let k : has_cells mem name i ≡ true = rw (given.copies name, given.cells i) refl in cc
  Added-Holds m d name t (some (err eexist, m')) hold fresh (same, i, e) g =
      let k = sym fresh ∙ get_by_key-some h laws m name i e in cc
  Added-Holds m d name t (some (err enospc, m')) hold fresh (same, all, bound) g =
      let k : false ≡ true = ap (λ z. is_bound z m.size) (sym hold.open_end) ∙ bound in cc
  Added-Holds m d name t (some (err enomem, m')) hold fresh (same, all, fails) g =
      let k : true ≡ false = sym (given.grows (m.size + 1)) ∙ fails in cc
  Added-Holds m d name t (some (err _, m')) hold fresh f g = absurd f

  pub add_text-Holds :
      (m : Map h Str) (d : Dict) (name : Str) (text : Option Str)
      → Holds h m d
      → (m' : Map h Str) × (add_text h mem m name text ≡ some ((dict_add h d name text).0, m'))
        × Holds h m' (dict_add h d name text).1
  unfolding add_text
  add_text-Holds m d name text hold = elim (Option-cases (d name)) [
    | inr (v, e) ↦
        let got : get_by_key h m name ≡ ok (some v) = hold.texts name ∙ ap found e in
        (m, rw (got, add_text, e, dict_add) refl, rw (e, dict_add) hold)
    | inl e ↦ fresh text e (hold.texts name ∙ ap found e)
  ]
    where
      fresh :
          (text : Option Str)
          → d name ≡ none
          → get_by_key h m name ≡ err enoent
          → (m' : Map h Str) × (add_text h mem m name text ≡ some ((dict_add h d name text).0, m'))
            × Holds h m' (dict_add h d name text).1
      fresh none e got = (m, rw (got, add_text, e, dict_add) refl, rw (e, dict_add) hold)
      fresh (some t) e got =
          let full : (m.num_values == m.size) ≡ true = ground (arith, hold.full) in
          let (m', code, hold') =
            Added-Holds m d name t (add h mem m name (some t)) hold got
              (add_lem h laws mem m name t hold.valid) (add-Grown h mem m name (some t) full) in
          (m', rw (got, add_text, e, dict_add) code, rw (e, dict_add) hold')

  Updated-Holds :
      (m : Map h Str) (d : Dict) (name t v : Str) (r : Result (ℕ × Option Str) × Map h Str)
      → Holds h m d
      → get_by_key h m name ≡ ok (some v)
      → Updated h laws m name t r
      → ((r.1).size ≡ m.size) × ((r.1).max_size ≡ m.max_size)
      → Holds h (r.1) (put h d name t)
  Updated-Holds m d name t v (ok (i, old), m') hold got (was, valid', count, written)
        (size, bound) =
      record {
        valid = valid';
        full = omega (arith, count, hold.full, size);
        open_end = bound ∙ hold.open_end;
        texts = put-texts m m' d name t hold.texts written;
      }
  Updated-Holds m d name t v (err e, m') hold got (is_fail, absent, same) sizes =
      let k = sym got ∙ get_by_key-none h laws m name absent in cc

  pub update_text-Holds :
      (m : Map h Str) (d : Dict) (name : Str) (text : Option Str)
      → Holds h m d
      → ((update_text h mem m name text).0 ≡ (dict_update h d name text).0)
        × Holds h (update_text h mem m name text).1 (dict_update h d name text).1
  unfolding update_text
  update_text-Holds m d name text hold = elim (Option-cases (d name)) [
    | inl e ↦
        let got : get_by_key h m name ≡ err enoent = hold.texts name ∙ ap found e in
        rw (got, update_text, e, dict_update) (refl, hold)
    | inr (v, e) ↦ present text v e (hold.texts name ∙ ap found e)
  ]
    where
      present :
          (text : Option Str) (v : Str)
          → d name ≡ some v
          → get_by_key h m name ≡ ok (some v)
          → ((update_text h mem m name text).0 ≡ (dict_update h d name text).0)
            × Holds h (update_text h mem m name text).1 (dict_update h d name text).1
      present none v e got = rw (got, update_text, e, dict_update) (refl, hold)
      present (some t) v e got =
          let hold' =
            Updated-Holds m d name t v (update h m name (some t)) hold got
              (update-Updated h laws m name t hold.valid hold.full)
              (update-size h m name (some t)) in
          rw (got, update_text, e, dict_update) (refl, hold')
