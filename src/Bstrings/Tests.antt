-- ===== src/Bstrings/Tests.antt =====
-- Runs of the string lists of src/bstrlib_helper.c, and the properties at concrete inputs.
use mathlib.Core.List.{Perm}
use likwid_bench.Base.{
  ℕ, ◌≡◌, ◌↔◌, refl, Bool, true, false, List, [], ◌∷◌, length, ltb, if◌then◌else◌, arith,
}
use likwid_bench.Base.Int.{ℤ, pos, negsuc}
use likwid_bench.Base.Strings.{Str, str, strcmp_eq, strncmp_eq}
use likwid_bench.Bstrings.Entries.{
  BstrList, grow, bstr_list_add, add_unchecked, bstr_list_del, bstr_list_get, copy_from,
  bstr_list_copy,
}
use likwid_bench.Bstrings.Entries.Growth.{Valid, Extended, bstr_list_copy-Extended}
use likwid_bench.Bstrings.Sorting.{is_neg, min_from, mini_of, sort_loop, bstr_list_sort_func}
use likwid_bench.Bstrings.Sorting.Sorted.{Order, Ascending, bstr_list_sort_func-Sorts}
use likwid_bench.Bstrings.Removal.{
  is_ok, delete_from, bstr_list_remove, repeats, dup_loop, bstr_list_remove_dup,
}
use likwid_bench.Bstrings.Removal.Deduped.{without, Deduped, bstr_list_remove-without}
use likwid_bench.Bstrings.Tokens.{strchr, add_block, add_word, tok_loop, bstrtok_delimters}
use likwid_bench.Bstrings.Tokens.Pieces.{concat, AreTokens}
use likwid_bench.Bstrings.Tokens.Adds.{bstrtok_delimters-AreTokens}
use likwid_bench.Bstrings.Number.{
  is_digit, bisinteger, skip_one, skip_digits, exponent, fraction, bisnumber,
}
use likwid_bench.Bstrings.Number.Grammar.{Number}
use likwid_bench.Bstrings.Number.Sound.{bisnumber-iff_Number}

abbrev plenty : ℕ → Bool
plenty n = true

abbrev created : BstrList
created = record { entry = []; mlen = 4 }

created-Valid : Valid created
created-Valid = record { some_room = omega arith; fits = omega arith }

abbrev sample : BstrList
sample = record { entry = str "ccc" ∷ str "a" ∷ str "bb" ∷ []; mlen = 4 }

-- Shorter strings first.
abbrev by_length : Str → Str → ℤ
by_length a b = if ltb (length a) (length b) then negsuc 0 else pos 0

by_length-Order : Order by_length
unfolding is_neg
by_length-Order = record { asym = λ a b h. ground arith; trans = λ a b c h k. ground arith }

-- `strcmp` and `strncmp`, as far as a test for equality goes.
abbrev compare_all : Str → Str → ℤ
compare_all a b = if strcmp_eq a b then pos 0 else pos 1

abbrev compare_some : Str → Str → ℕ → ℤ
compare_some a b n = if strncmp_eq a b n then pos 0 else pos 1

abbrev names : BstrList
names = record { entry = str "rax" ∷ str "r1" ∷ str "rax" ∷ str "r10" ∷ []; mlen = 4 }

sample_sorted :
    (bstr_list_sort_func by_length plenty created sample).entry
    ≡ str "a" ∷ str "bb" ∷ str "ccc" ∷ []
unfolding bstr_list_sort_func sort_loop mini_of min_from is_neg bstr_list_copy copy_from
    add_unchecked bstr_list_add bstr_list_del
sample_sorted = refl

-- A name that another one begins with goes with it.
names_deduped : (bstr_list_remove_dup compare_some names).entry ≡ str "rax" ∷ str "r1" ∷ []
unfolding bstr_list_remove_dup dup_loop repeats delete_from is_ok bstr_list_get bstr_list_del
    strncmp_eq
names_deduped = refl

names_removed : (bstr_list_remove compare_all names (str "rax")).entry ≡ str "r1" ∷ str "r10" ∷ []
unfolding bstr_list_remove delete_from is_ok bstr_list_get bstr_list_del strcmp_eq
names_removed = refl

tokens_of_line :
    (bstrtok_delimters plenty (λ s z. s) (str "mov r1,[r2]") created).entry
    ≡ str "mov" ∷ str " " ∷ str "r1" ∷ str "," ∷ str "[" ∷ str "r2" ∷ str "]" ∷ []
unfolding bstrtok_delimters tok_loop add_word add_block strchr add_unchecked bstr_list_add grow
tokens_of_line = refl

numbers :
    (bisnumber (str "-1.5e+3") ≡ true)
    × (bisnumber (str "+1") ≡ false)
    × (bisnumber (str ".") ≡ false)
    × (bisnumber (str "1e") ≡ false)
    × (bisinteger (str "12") ≡ true)
    × (bisinteger (str "") ≡ true)
unfolding bisnumber bisinteger fraction exponent skip_one skip_digits is_digit
numbers = (refl, refl, refl, refl, refl, refl)

bstr_list_sort_func-Sorts_example :
    Perm (bstr_list_sort_func by_length plenty created sample).entry sample.entry
    × Ascending by_length (bstr_list_sort_func by_length plenty created sample).entry
bstr_list_sort_func-Sorts_example =
    bstr_list_sort_func-Sorts by_length by_length-Order plenty created sample (λ n. refl)
      created-Valid refl (omega arith)

bstr_list_copy-Extended_example :
    Extended created sample.entry (bstr_list_copy plenty created sample)
bstr_list_copy-Extended_example =
    bstr_list_copy-Extended plenty created sample (λ n. refl) created-Valid refl (omega arith)

bstr_list_remove-without_example :
    ((bstr_list_remove compare_all names (str "rax")).entry
      ≡ without (λ e. is_ok (compare_all (str "rax") e)) names.entry)
    × Deduped (repeats compare_some) names.entry (bstr_list_remove_dup compare_some names).entry
bstr_list_remove-without_example =
    bstr_list_remove-without compare_all compare_some names (str "rax")

bstrtok_delimters-AreTokens_example :
    (tokens : List Str) × Extended created tokens
      (bstrtok_delimters plenty (λ s z. s) (str "mov r1,[r2]") created)
    × (concat tokens ≡ str "mov r1,[r2]")
    × AreTokens tokens
bstrtok_delimters-AreTokens_example =
    bstrtok_delimters-AreTokens plenty (λ s z. s) (str "mov r1,[r2]") created (λ n. refl)
      created-Valid (omega arith)

bisnumber-iff_Number_example : (bisnumber (str "-1.5e+3") ≡ true) ↔ Number (str "-1.5e+3")
bisnumber-iff_Number_example = bisnumber-iff_Number (str "-1.5e+3")
