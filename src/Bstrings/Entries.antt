-- ===== src/Bstrings/Entries.antt =====
-- `struct bstrList` and `bstrListAdd`, `bstrListDel`, `bstrListGet`, `bstrListCopy` of
-- src/bstrlib_helper.c.
pub mod Growth
use likwid_bench.Base.{
  ℕ, zero, suc, ◌+◌, ◌*◌, ◌-◌, ◌^◌, Bool, true, false, Option, none, some, List, [], ◌∷◌, ◌++◌,
  length, get_elem?, ltb, leb, if◌then◌else◌,
}
use likwid_bench.Base.Strings.{Str}

-- `entry` holds the first `qty` of the `mlen` places.
pub record BstrList : Type 0 where
  pub entry : List Str
  pub mlen : ℕ

abbrev pub qty : BstrList → ℕ
qty sl = length sl.entry

abbrev pub int_max : ℕ
int_max = 2 ^ 31 - 1

-- The capacity that the loop finds, its error return, and `spinning` for a loop that does not end.
pub data Room : Type 0 where
  room : ℕ → Room
  refused : Room
  spinning : Room

-- The `while` of `bstrListAdd`, on fuel. A doubling past `int_max` wraps to a negative number, and
-- that is below the old capacity.
unfoldable pub grow : (fuel n old mlen : ℕ) → Room
grow zero n old mlen = spinning
grow (suc fuel) n old mlen = elim (ltb int_max mlen) [
  | true ↦ refused
  | false ↦ elim (leb mlen n) [
    | true ↦ elim (ltb mlen old) [ true ↦ refused | false ↦ grow fuel n old (mlen + mlen) ]
    | false ↦ room mlen
  ]
]

-- The doublings from 1 that exceed `int_max`.
abbrev pub grow_fuel : ℕ
grow_fuel = 33

pub data Added : Type 0 where
  added : BstrList → Added
  bstr_err : Added
  looping : Added

-- `alloc` says whether `realloc` returns memory for that many entries.
unfoldable pub bstr_list_add : (ℕ → Bool) → BstrList → Str → Added
bstr_list_add alloc sl s =
    if leb sl.mlen (qty sl)
    then (elim (grow grow_fuel (qty sl) sl.mlen (sl.mlen * 2)) [
      | room mlen ↦
          (if alloc mlen
            then added (record { entry = sl.entry ++ s ∷ []; mlen = mlen })
            else bstr_err)
      | refused ↦ bstr_err
      | spinning ↦ looping
    ])
    else added (record sl { entry = sl.entry ++ s ∷ [] })

-- A caller that drops the code of `bstrListAdd` goes on with the list as it is.
unfoldable pub add_unchecked : (ℕ → Bool) → BstrList → Str → BstrList
add_unchecked alloc sl s = elim (bstr_list_add alloc sl s) [
  | added sl' ↦ sl'
  | bstr_err ↦ sl
  | looping ↦ sl
]

-- The entries without the one at an index.
abbrev pub erase_at {ℓ} : {A : Type ℓ} → List A → ℕ → List A
erase_at [] i = []
erase_at (x ∷ xs) zero = xs
erase_at (x ∷ xs) (suc i) = x ∷ erase_at xs i

-- Out of range, `bstrListDel` returns its error code and changes nothing.
unfoldable pub bstr_list_del : BstrList → ℕ → Option BstrList
bstr_list_del sl idx =
    if leb (qty sl) idx then none else some (record sl { entry = erase_at sl.entry idx })

unfoldable pub bstr_list_get : BstrList → ℕ → Option Str
bstr_list_get sl idx = if leb (qty sl) idx then none else get_elem? sl.entry idx

-- The loop of `bstrListCopy`, over the entries that are left.
unfoldable pub copy_from : (ℕ → Bool) → BstrList → List Str → BstrList
copy_from alloc ol [] = ol
copy_from alloc ol (e ∷ es) = copy_from alloc (add_unchecked alloc ol e) es

-- `created` is what `bstrListCreate` returns.
unfoldable pub bstr_list_copy : (ℕ → Bool) → (created : BstrList) → BstrList → BstrList
bstr_list_copy alloc created sl = copy_from alloc created sl.entry
