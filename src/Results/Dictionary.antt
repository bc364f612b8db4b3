-- ===== src/Results/Dictionary.antt =====
-- The results of src/results.c as two dictionaries, from `init_result` on.
use likwid_bench.Base.{
  ◌≡◌, refl, ◌∙◌, ap, true, Option, none, some, Option-cases, inl, inr, List, [], ◌∷◌, Result, ok,
  err, enoent,
}
use likwid_bench.Base.Int.{negsuc}
use likwid_bench.Base.Strings.{Str}
use likwid_bench.Map.{Hash, Memory, Map, init}
use likwid_bench.Map.Valid.{Laws}
use likwid_bench.Map.Stores.{get_by_key-none}
use likwid_bench.Map.Ops.Update.{init-Initial}
use likwid_bench.Results.{
  WorkgroupResult, init_result, Call, add_value, update_value, add_variable, update_variable,
  update_text, call, calls, get_number,
}
use likwid_bench.Results.Entries.{
  Given, Dict, found, dict_add, dict_update, Holds, add_text-Holds, update_text-Holds,
}

-- The texts of the numbers, and of the variables.
abbrev pub Dicts : Type 0
Dicts = Dict × Dict

abbrev pub no_entries : Dict
no_entries name = none

module _ (h : Hash Str) {D : Type 0} (bformat : D → Option Str) where
  abbrev in_values : Dict → Result (Unit {0}) × Dict → Result (Unit {0}) × Dicts
  in_values vars (code, d) = (code, (d, vars))

  abbrev in_variables : Dict → Result (Unit {0}) × Dict → Result (Unit {0}) × Dicts
  in_variables vals (code, d) = (code, (vals, d))

  abbrev pub dict_call : Dicts → Call D → Result (Unit {0}) × Dicts
  dict_call (vals, vars) (add_value name x) = in_values vars (dict_add h vals name (bformat x))
  dict_call (vals, vars) (update_value name x) =
      in_values vars (dict_update h vals name (bformat x))
  dict_call (vals, vars) (add_variable name v) = in_variables vals (dict_add h vars name (some v))
  dict_call (vals, vars) (update_variable name v) =
      in_variables vals (dict_update h vars name (some v))

  abbrev pub dict_codes : Dicts → List (Call D) → List (Result (Unit {0}))
  dict_codes ds [] = []
  dict_codes ds (c ∷ cs) = (dict_call ds c).0 ∷ dict_codes ((dict_call ds c).1) cs

  abbrev pub dict_calls : Dicts → List (Call D) → Dicts
  dict_calls ds [] = ds
  dict_calls ds (c ∷ cs) = dict_calls ((dict_call ds c).1) cs

-- What `get_value` and `get_variable` return for an entry.
abbrev pub number_of : {N : Type 0} → (Str → N) → Option Str → Result (Option N)
number_of parse none = err enoent
number_of parse (some t) = ok (some (parse t))

module _ (h : Hash Str) where
  abbrev pair : Map h Str → Map h Str → WorkgroupResult h
  pair vals vars = record { values = some vals; variables = some vars }

  -- The two maps hold the two dictionaries.
  abbrev pub HoldsBoth : Dicts → WorkgroupResult h → Type 0
  HoldsBoth ds r =
      (vals : Map h Str) × (vars : Map h Str) × (r ≡ pair vals vars)
      × Holds h vals ds.0
      × Holds h vars ds.1

  get_number-found :
      {N : Type 0} (parse : Str → N) (m : Map h Str) (d : Dict) (name : Str)
      → Holds h m d
      → get_number h parse (some m) name ≡ number_of parse (d name)
  unfolding get_number
  get_number-found parse m d name hold = elim (Option-cases (d name)) [
    | inl e ↦ rw (hold.texts name ∙ ap found e, get_number, e) refl
    | inr (v, e) ↦ rw (hold.texts name ∙ ap found e, get_number, e) refl
  ]

  abbrev empty_map : Map h Str
  empty_map = record {
    num_values = 0;
    size = 0;
    max_size = negsuc 0;
    table = h.empty;
    values = [];
    destroys = true;
  }

  empty_map-Holds : Laws h → Holds h empty_map no_entries
  unfolding init
  empty_map-Holds laws =
      let initial = init-Initial h laws Str true (negsuc 0) true in
      record {
        valid = initial.0;
        full = refl;
        open_end = refl;
        texts = λ k. get_by_key-none h laws empty_map k (laws.lookup-empty k);
      }

module _ (h : Hash Str) (laws : Laws h) (mem : Memory Str) (given : Given mem) {D : Type 0}
    (bformat : D → Option Str) where
  call-HoldsBoth :
      (vals vars : Map h Str) (ds : Dicts) (c : Call D)
      → Holds h vals ds.0
      → Holds h vars ds.1
      → (r : WorkgroupResult h) × (call h mem bformat (pair h vals vars) c
          ≡ some ((dict_call h bformat ds c).0, r))
        × HoldsBoth h ((dict_call h bformat ds c).1) r
  unfolding call
  call-HoldsBoth vals vars ds (add_value name x) hold hold' =
      let (m, code, kept) = add_text-Holds h laws mem given vals ds.0 name (bformat x) hold in
      (pair h m vars, rw code refl, (m, vars, refl, kept, hold'))
  call-HoldsBoth vals vars ds (update_value name x) hold hold' =
      let (code, kept) = update_text-Holds h laws mem given vals ds.0 name (bformat x) hold in
      let m : Map h Str = (update_text h mem vals name (bformat x)).1 in
      (pair h m vars, ap (λ c. some (c, pair h m vars)) code, (m, vars, refl, kept, hold'))
  call-HoldsBoth vals vars ds (add_variable name v) hold hold' =
      let (m, code, kept) = add_text-Holds h laws mem given vars ds.1 name (some v) hold' in
      (pair h vals m, rw code refl, (vals, m, refl, hold, kept))
  call-HoldsBoth vals vars ds (update_variable name v) hold hold' =
      let (code, kept) = update_text-Holds h laws mem given vars ds.1 name (some v) hold' in
      let m : Map h Str = (update_text h mem vars name (some v)).1 in
      (pair h vals m, ap (λ c. some (c, pair h vals m)) code, (vals, m, refl, hold, kept))

  calls-cons :
      (r r1 r2 : WorkgroupResult h) (c : Call D) (cs : List (Call D)) (code : Result (Unit {0}))
      (codes : List (Result (Unit {0})))
      → call h mem bformat r c ≡ some (code, r1)
      → calls h mem bformat r1 cs ≡ some (codes, r2)
      → calls h mem bformat r (c ∷ cs) ≡ some (code ∷ codes, r2)
  unfolding calls
  calls-cons r r1 r2 c cs code codes e1 e2 = rw (e1, calls, e2) refl

  calls-HoldsBoth :
      (r : WorkgroupResult h) (ds : Dicts) (cs : List (Call D))
      → HoldsBoth h ds r
      → (r' : WorkgroupResult h) × (calls h mem bformat r cs
          ≡ some (dict_codes h bformat ds cs, r'))
        × HoldsBoth h (dict_calls h bformat ds cs) r'
  unfolding calls
  calls-HoldsBoth r ds [] both = (r, refl, both)
  calls-HoldsBoth r ds (c ∷ cs) (vals, vars, same, hold, hold') =
      let (r1, e1, both1) = call-HoldsBoth vals vars ds c hold hold' in
      let (r2, e2, both2) = calls-HoldsBoth r1 ((dict_call h bformat ds c).1) cs both1 in
      (
        r2,
        calls-cons r r1 r2 c cs ((dict_call h bformat ds c).0)
            (dict_codes h bformat ((dict_call h bformat ds c).1) cs)
            (ap (λ q. call h mem bformat q c) same ∙ e1) e2,
        both2,
      )

  -- If memory is given whenever it is asked for, any sequence of additions and updates of values and variables after
  -- `init_result` returns the codes that two dictionaries return, in which an addition keeps the
  -- first text of a name and an update wants the name to be there, and then `get_value` and
  -- `get_variable` read the texts of these dictionaries.
  pub calls-dict_calls :
      {N : Type 0} (parse : Str → N) (cs : List (Call D))
      → (r : WorkgroupResult h) × (init_result h true true ≡ ok r)
        × (r' : WorkgroupResult h) × (calls h mem bformat r cs
            ≡ some (dict_codes h bformat (no_entries, no_entries) cs, r'))
        × ((name : Str)
            → (get_number h parse r'.values name
                ≡ number_of parse ((dict_calls h bformat (no_entries, no_entries) cs).0 name))
              × (get_number h parse r'.variables name
                  ≡ number_of parse ((dict_calls h bformat (no_entries, no_entries) cs).1 name)))
  unfolding init_result init
  calls-dict_calls parse cs =
      let empty = empty_map-Holds h laws in
      let start : WorkgroupResult h = pair h (empty_map h) (empty_map h) in
      let ds : Dicts = dict_calls h bformat (no_entries, no_entries) cs in
      let (r, e, both) =
        calls-HoldsBoth start (no_entries, no_entries) cs
          (empty_map h, empty_map h, refl, empty, empty) in
      let (vals, vars, same, hold, hold') = both in
      (
        start,
        refl,
        r,
        e,
        λ name. (
          ap (λ q. get_number h parse q.values name) same
              ∙ get_number-found h parse vals ds.0 name hold,
          ap (λ q. get_number h parse q.variables name) same
              ∙ get_number-found h parse vars ds.1 name hold',
        ),
      )
