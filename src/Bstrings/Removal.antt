-- ===== src/Bstrings/Removal.antt =====
-- `bstrListRemove` and `bstrListRemoveDup` of src/bstrlib_helper.c.
pub mod Deduped
use likwid_bench.Base.{
  ℕ, zero, suc, Bool, true, false, Option, none, some, List, [], ◌∷◌, length, ◌==◌,
}
use likwid_bench.Base.Int.{ℤ, pos, negsuc}
use likwid_bench.Base.Strings.{Str}
use likwid_bench.Bstrings.Entries.{BstrList, qty, bstr_list_get, bstr_list_del}

-- `== BSTR_OK`, on the result of a comparison.
unfoldable pub is_ok : ℤ → Bool
is_ok (pos n) = n == 0
is_ok (negsuc n) = false

-- The loop that both functions run from an index: an entry that matches is deleted, and the index
-- stays.
unfoldable pub delete_from : (Str → Bool) → (fuel i : ℕ) → BstrList → BstrList
delete_from matches zero i sl = sl
delete_from matches (suc fuel) i sl = elim (bstr_list_get sl i) [
  | none ↦ sl
  | some e ↦ elim (matches e) [
    | true ↦ elim (bstr_list_del sl i) [ none ↦ sl | some sl' ↦ delete_from matches fuel i sl' ]
    | false ↦ delete_from matches fuel (suc i) sl
  ]
]

-- A round deletes an entry or passes one, so there are `qty` of them.
unfoldable pub bstr_list_remove : (bstrcmp : Str → Str → ℤ) → BstrList → Str → BstrList
unfolding delete_from is_ok
bstr_list_remove bstrcmp sl s = delete_from (λ e. is_ok (bstrcmp s e)) (qty sl) 0 sl

module _ (bstrncmp : Str → Str → ℕ → ℤ) where
  -- The comparison looks at no more bytes than the earlier entry has.
  unfoldable pub repeats : Str → Str → Bool
  unfolding is_ok
  repeats curr e = is_ok (bstrncmp curr e (length curr))

  unfoldable pub dup_loop : (fuel i : ℕ) → BstrList → BstrList
  unfolding repeats delete_from
  dup_loop zero i sl = sl
  dup_loop (suc fuel) i sl = elim (bstr_list_get sl i) [
    | none ↦ sl
    | some curr ↦ dup_loop fuel (suc i) (delete_from (repeats curr) (qty sl) (suc i) sl)
  ]

  unfoldable pub bstr_list_remove_dup : BstrList → BstrList
  unfolding dup_loop
  bstr_list_remove_dup sl = dup_loop (qty sl) 0 sl
