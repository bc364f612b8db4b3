-- ===== src/Bstrings/Entries/Growth.antt =====
-- What `bstrListAdd` of src/bstrlib_helper.c keeps: the entries fit, and the capacity is within a
-- factor of two of what is needed.
use likwid_bench.Base.{
  ℕ, suc, ◌+◌, ◌*◌, ◌≤◌, ◌<◌, max, ◌≡◌, refl, sym, ap, ◌∙◌, Bool, true, false, List, [], ◌∷◌, ◌++◌,
  append-nil, append_assoc, length, length-append, leb, ltb, arith, Bool-cases, inl, inr,
}
use likwid_bench.Base.Strings.{Str}
use likwid_bench.Bstrings.Entries.{
  BstrList, qty, int_max, room, grow, grow_fuel, added, bstr_list_add, add_unchecked, copy_from,
  bstr_list_copy,
}

pub record Valid (sl : BstrList) : Type 0 where
  pub some_room : 0 < sl.mlen
  pub fits : qty sl ≤ sl.mlen

-- What a list of `n` entries that began with capacity `start` may hold at most.
grow_once :
    (k n old m : ℕ) → ltb int_max m ≡ false → leb m n ≡ false → grow (suc k) n old m ≡ room m
unfolding grow
grow_once k n old m a b = rw (a, b, grow) refl

grow_full : (n m : ℕ) → n ≤ m → 0 < m → m * 2 ≤ int_max → grow grow_fuel n m (m * 2) ≡ room (m * 2)
grow_full n m fits pos small = grow_once 32 n m (m * 2) (ground arith) (ground arith)

-- The list `sl` with the entry `s` at its end.
pub record Appended (sl : BstrList) (s : Str) (sl' : BstrList) : Type 0 where
  pub entries : sl'.entry ≡ sl.entry ++ s ∷ []
  pub valid : Valid sl'
  pub capacity : sl'.mlen ≤ max sl.mlen (2 * qty sl')
  pub kept : sl.mlen ≤ sl'.mlen

length-snoc {ℓ} : {A : Type ℓ} (xs : List A) (x : A) → length (xs ++ x ∷ []) ≡ suc (length xs)
length-snoc xs x = omega (arith, length-append xs (x ∷ []))

pub bstr_list_add-Appended :
    (alloc : ℕ → Bool) (sl : BstrList) (s : Str)
    → ((n : ℕ) → alloc n ≡ true)
    → Valid sl
    → 2 * suc (qty sl) ≤ int_max
    → (sl' : BstrList) × (bstr_list_add alloc sl s ≡ added sl') × Appended sl s sl'
unfolding bstr_list_add
bstr_list_add-Appended alloc sl s mem v small = elim (Bool-cases (leb sl.mlen (qty sl))) [
  | inl full ↦ (
    record { entry = sl.entry ++ s ∷ []; mlen = sl.mlen * 2 },
    rw
        (
          full,
          grow_full (qty sl) sl.mlen v.fits v.some_room (ground (arith, v.fits)),
          mem (sl.mlen * 2),
        )
        refl,
    record {
      entries = refl;
      valid = record {
        some_room = omega (arith, v.some_room);
        fits = omega (arith, length-snoc sl.entry s, v.fits, v.some_room);
      };
      capacity = ground (arith, length-snoc sl.entry s);
      kept = omega arith;
    },
  )
  | inr space ↦ (
    record sl { entry = sl.entry ++ s ∷ [] },
    rw space refl,
    record {
      entries = refl;
      valid = record { some_room = v.some_room; fits = ground (arith, length-snoc sl.entry s) };
      capacity = omega arith;
      kept = omega arith;
    },
  )
]

-- The list `sl` with the entries `es` after its own.
pub record Extended (sl : BstrList) (es : List Str) (sl' : BstrList) : Type 0 where
  pub entries : sl'.entry ≡ sl.entry ++ es
  pub valid : Valid sl'
  pub capacity : sl'.mlen ≤ max sl.mlen (2 * qty sl')

pub Extended-trans :
    (sl sm sr : BstrList) (es fs : List Str)
    → Extended sl es sm
    → Extended sm fs sr
    → Extended sl (es ++ fs) sr
Extended-trans sl sm sr es fs left right = record {
  entries = right.entries ∙ ap (λ l. l ++ fs) left.entries ∙ append_assoc sl.entry es fs;
  valid = right.valid;
  capacity =
      omega
        (arith, left.capacity, right.capacity, ap length right.entries, length-append sm.entry fs);
}

pub add_unchecked-Appended :
    (alloc : ℕ → Bool) (sl : BstrList) (s : Str)
    → ((n : ℕ) → alloc n ≡ true)
    → Valid sl
    → 2 * suc (qty sl) ≤ int_max
    → Appended sl s (add_unchecked alloc sl s)
unfolding add_unchecked
add_unchecked-Appended alloc sl s mem v small =
    let (sl', e, a) = bstr_list_add-Appended alloc sl s mem v small in rw (e, add_unchecked) a

pub add_unchecked-Extended :
    (alloc : ℕ → Bool) (sl : BstrList) (s : Str)
    → ((n : ℕ) → alloc n ≡ true)
    → Valid sl
    → 2 * suc (qty sl) ≤ int_max
    → Extended sl (s ∷ []) (add_unchecked alloc sl s)
add_unchecked-Extended alloc sl s mem v small =
    let a = add_unchecked-Appended alloc sl s mem v small in
    record { entries = a.entries; valid = a.valid; capacity = a.capacity }

pub qty-Extended :
    (sl sl' : BstrList) (es : List Str) → Extended sl es sl' → qty sl' ≡ qty sl + length es
qty-Extended sl sl' es x = ap length x.entries ∙ length-append sl.entry es

copy_from-Extended :
    (alloc : ℕ → Bool) (ol : BstrList) (es : List Str)
    → ((n : ℕ) → alloc n ≡ true)
    → Valid ol
    → 2 * (qty ol + length es) ≤ int_max
    → Extended ol es (copy_from alloc ol es)
unfolding copy_from
copy_from-Extended alloc ol [] mem v small = record {
  entries = sym (append-nil ol.entry);
  valid = v;
  capacity = omega arith;
}
copy_from-Extended alloc ol (e ∷ es) mem v small =
    let ol' = add_unchecked alloc ol e in
    let head = add_unchecked-Extended alloc ol e mem v (omega arith) in
    let len = qty-Extended ol ol' (e ∷ []) head in
    let rest = copy_from-Extended alloc ol' es mem head.valid (omega arith) in
    Extended-trans ol ol' (copy_from alloc ol' es) (e ∷ []) es head rest

-- A copy into a list that `bstrListCreate` has just made has the entries of the list, all of them
-- within its capacity, and the capacity is at most what the new list began with or twice the number
-- of entries, if memory is given and twice that number is an `int`.
pub bstr_list_copy-Extended :
    (alloc : ℕ → Bool) (created sl : BstrList)
    → ((n : ℕ) → alloc n ≡ true)
    → Valid created
    → created.entry ≡ []
    → 2 * qty sl ≤ int_max
    → Extended created sl.entry (bstr_list_copy alloc created sl)
unfolding bstr_list_copy
bstr_list_copy-Extended alloc created sl mem v fresh small =
    copy_from-Extended alloc created sl.entry mem v (omega (arith, ap length fresh))
