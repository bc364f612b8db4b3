-- ===== src/Bstrings/Sorting.antt =====
-- `bstrListSortFunc` and `bstrListSort` of src/bstrlib_helper.c: a selection sort on a copy.
pub mod Sorted
use likwid_bench.Base.{
  ℕ, zero, suc, Bool, true, false, Option, none, some, List, [], ◌∷◌, length, get_or, if◌then◌else◌,
}
use likwid_bench.Base.Int.{ℤ, pos, negsuc}
use likwid_bench.Base.Strings.{Str}
use likwid_bench.Bstrings.Entries.{BstrList, qty, add_unchecked, bstr_list_del, bstr_list_copy}

-- The sign of a comparison's result.
unfoldable pub is_neg : ℤ → Bool
is_neg (pos n) = false
is_neg (negsuc n) = true

module _ (cmp : Str → Str → ℤ) where
  -- The `for` over `tmp`, from index `i`: `rest` holds the entries from there.
  unfoldable pub min_from : (entry : List Str) (mini i : ℕ) (rest : List Str) → ℕ
  unfolding is_neg
  min_from entry mini i [] = mini
  min_from entry mini i (e ∷ rest) =
      min_from entry (if is_neg (cmp (get_or entry mini []) e) then mini else i) (suc i) rest

  unfoldable pub mini_of : BstrList → ℕ
  unfolding min_from
  mini_of tmp = min_from tmp.entry 0 0 tmp.entry

  module _ (alloc : ℕ → Bool) where
    -- The `while`, with one round for each entry of `tmp`: a round deletes one.
    unfoldable pub sort_loop : (fuel : ℕ) (tmp out_list : BstrList) → BstrList
    sort_loop zero tmp out_list = out_list
    sort_loop (suc fuel) tmp out_list = elim tmp.entry [
      | [] ↦ out_list
      | _ ∷ _ ↦
          let mini = mini_of tmp in
          let out' = add_unchecked alloc out_list (get_or tmp.entry mini []) in
          elim (bstr_list_del tmp mini) [ none ↦ out' | some tmp' ↦ sort_loop fuel tmp' out' ]
    ]

    -- `created` is what `bstrListCreate` returns.
    unfoldable pub bstr_list_sort_func : (created : BstrList) → BstrList → BstrList
    bstr_list_sort_func created sl =
        let tmp = bstr_list_copy alloc created sl in sort_loop (qty tmp) tmp created
