-- ===== src/Results/Tests.antt =====
-- Runs of src/results.c over a hash table that is a function.
use likwid_bench.Base.{
  ℕ, ◌+◌, ◌≡◌, refl, true, Option, none, some, List, [], ◌∷◌, if◌then◌else◌, ok, err, enoent,
  eexist,
}
use likwid_bench.Base.Strings.{Str, str, strcmp_eq, strcmp_eq→eq, strcmp_eq_self}
use likwid_bench.Map.{Hash, Memory}
use likwid_bench.Map.Valid.{Laws}
use likwid_bench.Results.{
  WorkgroupResult, init_result, Call, add_value, update_value, add_variable, calls, get_number,
}
use likwid_bench.Results.Entries.{Given}
use likwid_bench.Results.Dictionary.{
  dict_codes, dict_calls, no_entries, number_of, calls-dict_calls,
}

abbrev by_name : Hash Str
by_name = record {
  Table = Str → Option ℕ;
  empty = λ k. none;
  lookup = λ t k. t k;
  insert = λ t k cell k'. if strcmp_eq k k' then cell else t k';
  remove = λ t k k'. if strcmp_eq k k' then none else t k';
  equal = strcmp_eq;
}

by_name_laws : Laws by_name
by_name_laws = record {
  equal→eq = strcmp_eq→eq;
  equal_self = strcmp_eq_self;
  lookup-empty = λ k. refl;
  lookup-insert = λ t k i k'. refl;
  lookup-remove = λ t k k'. refl;
}

abbrev always : Memory Str
always = record { realloc = λ n. true; int_dup = λ i. true; key_dup = λ k. true }

always-Given : Given always
always-Given = record { grows = λ n. refl; cells = λ i. refl; copies = λ k. refl }

-- A number is printed as so many bytes.
abbrev print_number : ℕ → Option Str
print_number n = some (n ∷ [])

abbrev script : List (Call ℕ)
script =
    add_value (str "time") 5
    ∷ add_value (str "time") 6
    ∷ update_value (str "time") 7
    ∷ update_value (str "cycles") 8
    ∷ add_variable (str "time") (str "abc")
    ∷ []

abbrev byte_sum : Str → ℕ
byte_sum [] = 0
byte_sum (c ∷ s) = c + byte_sum s

codes_of_script :
    dict_codes by_name print_number (no_entries, no_entries) script
    ≡ ok tt ∷ err eexist ∷ ok tt ∷ err enoent ∷ ok tt ∷ []
unfolding strcmp_eq
codes_of_script = refl

time_of_script :
    (dict_calls by_name print_number (no_entries, no_entries) script).0 (str "time") ≡ some (7 ∷ [])
unfolding strcmp_eq
time_of_script = refl

calls-dict_calls_example :
    (r : WorkgroupResult by_name) × (init_result by_name true true ≡ ok r)
    × (r' : WorkgroupResult by_name) × (calls by_name always print_number r script
        ≡ some (dict_codes by_name print_number (no_entries, no_entries) script, r'))
    × ((name : Str)
        → (get_number by_name byte_sum r'.values name
            ≡ number_of byte_sum
                ((dict_calls by_name print_number (no_entries, no_entries) script).0 name))
          × (get_number by_name byte_sum r'.variables name
              ≡ number_of byte_sum
                  ((dict_calls by_name print_number (no_entries, no_entries) script).1 name)))
calls-dict_calls_example =
    calls-dict_calls by_name by_name_laws always always-Given print_number byte_sum script
