-- ===== src/Bstrings/Sorting/Sorted.antt =====
-- What the selection sort of src/bstrlib_helper.c returns.
use mathlib.Core.Path.{subst}
use mathlib.Core.List.{Perm}
use mathlib.Core.List.Perm
use likwid_bench.Base.{
  ℕ, zero, suc, ◌+◌, ◌*◌, ◌≤◌, ◌<◌, ◌≡◌, refl, sym, ◌∙◌, ap, ap₂, Bool, true, false, List, [], ◌∷◌,
  ◌++◌, append-nil, append_assoc, length, length-append, get_or, All, All-append, All-map,
  All-get_or, leb, some, arith, Bool-cases, inl, inr,
}
use likwid_bench.Base.Int.{ℤ}
use likwid_bench.Base.Strings.{Str}
use likwid_bench.Bstrings.Entries.{
  BstrList, qty, int_max, add_unchecked, erase_at, bstr_list_del, bstr_list_copy,
}
use likwid_bench.Bstrings.Entries.Growth.{Valid, add_unchecked-Appended, bstr_list_copy-Extended}
use likwid_bench.Bstrings.Sorting.{is_neg, min_from, mini_of, sort_loop, bstr_list_sort_func}

module _ {A : Type 0} where
  get_or_append :
      (pre : List A) (e : A) (rest : List A) (d : A) → get_or (pre ++ e ∷ rest) (length pre) d ≡ e
  get_or_append [] e rest d = refl
  get_or_append (x ∷ pre) e rest d = get_or_append pre e rest d

  All-erase_at {κ} : (P : A → Type κ) (xs : List A) (i : ℕ) → All P xs → All P (erase_at xs i)
  All-erase_at P [] i h = tt
  All-erase_at P (x ∷ xs) zero h = h.1
  All-erase_at P (x ∷ xs) (suc i) h = (h.0, All-erase_at P xs i h.1)

  perm-erase_at :
      (xs : List A) (i : ℕ) (d : A) → i < length xs → Perm (get_or xs i d ∷ erase_at xs i) xs
  perm-erase_at [] i d lt = absurd (omega arith)
  perm-erase_at (x ∷ xs) zero d lt = Perm.refl (x ∷ xs)
  perm-erase_at (x ∷ xs) (suc i) d lt =
      Perm.trans (Perm.swap x (get_or xs i d) (erase_at xs i))
        (Perm.cons x (perm-erase_at xs i d (omega arith)))

  length-erase_at : (xs : List A) (i : ℕ) → i < length xs → suc (length (erase_at xs i)) ≡ length xs
  length-erase_at [] i lt = absurd (omega arith)
  length-erase_at (x ∷ xs) zero lt = refl
  length-erase_at (x ∷ xs) (suc i) lt = ap suc (length-erase_at xs i (omega arith))

module _ (cmp : Str → Str → ℤ) where
  -- `a` does not come after `b`.
  abbrev pub Le : Str → Str → Type 0
  Le a b = is_neg (cmp b a) ≡ false

  -- What a comparison for the sort has to obey.
  pub record Order : Type 0 where
    pub asym : (a b : Str) → is_neg (cmp a b) ≡ true → Le a b
    pub trans : (a b c : Str) → Le a b → Le b c → Le a c

  abbrev pub Ascending : List Str → Type 0
  Ascending [] = Unit
  Ascending (x ∷ xs) = All (Le x) xs × Ascending xs

  Ascending-append :
      (xs : List Str) (m : Str) → Ascending xs → All (λ a. Le a m) xs → Ascending (xs ++ m ∷ [])
  Ascending-append [] m h below = (tt, tt)
  Ascending-append (x ∷ xs) m h below =
      (All-append (Le x) xs (m ∷ []) h.0 (below.0, tt), Ascending-append xs m h.1 below.1)

module _ (cmp : Str → Str → ℤ) (order : Order cmp) where
  Le_refl : (a : Str) → Le cmp a a
  Le_refl a = elim (Bool-cases (is_neg (cmp a a))) [ inl lt ↦ order.asym a a lt | inr le ↦ le ]

  abbrev Least : List Str → ℕ → Type 0
  Least entry r = r < length entry × All (Le cmp (get_or entry r [])) entry

  min_from-Least :
      (entry pre rest : List Str) (mini i : ℕ)
      → entry ≡ pre ++ rest
      → i ≡ length pre
      → mini < length entry
      → All (Le cmp (get_or entry mini [])) pre
      → Least entry (min_from cmp entry mini i rest)
  unfolding min_from
  min_from-Least entry pre [] mini i e at lt least =
      (lt, subst (λ l. All (Le cmp (get_or entry mini [])) l) (sym (e ∙ append-nil pre)) least)
  min_from-Least entry pre (x ∷ rest) mini i e at lt least =
      let m = get_or entry mini [] in
      let here : get_or entry i [] ≡ x =
        ap₂ (λ l k. get_or l k []) e at ∙ get_or_append pre x rest [] in
      let e' : entry ≡ (pre ++ x ∷ []) ++ rest = e ∙ sym (append_assoc pre (x ∷ []) rest) in
      let at' : suc i ≡ length (pre ++ x ∷ []) = omega (arith, length-append pre (x ∷ [])) in
      let bound : i < length entry = omega (arith, ap length e, length-append pre (x ∷ rest)) in
      elim (Bool-cases (is_neg (cmp m x))) [
        | inl before ↦ rw before (
            min_from-Least entry (pre ++ x ∷ []) rest mini (suc i) e' at' lt
              (All-append (Le cmp m) pre (x ∷ []) least (order.asym m x before, tt)))
        | inr after ↦ rw after (
            min_from-Least entry (pre ++ x ∷ []) rest i (suc i) e' at' bound (
              subst (λ y. All (Le cmp y) (pre ++ x ∷ [])) (sym here)
                (All-append (Le cmp x) pre (x ∷ [])
                  (All-map (Le cmp x) pre (λ y le. order.trans x m y after le) least)
                  (Le_refl x, tt))))
      ]

  mini_of-Least : (tmp : BstrList) → 0 < qty tmp → Least tmp.entry (mini_of cmp tmp)
  unfolding mini_of
  mini_of-Least tmp lt = min_from-Least tmp.entry [] tmp.entry 0 0 refl refl lt tt

bstr_list_del-some :
    (sl : BstrList) (i : ℕ)
    → i < qty sl
    → bstr_list_del sl i ≡ some (record sl { entry = erase_at sl.entry i })
unfolding bstr_list_del
bstr_list_del-some sl i lt = let e : leb (qty sl) i ≡ false = ground arith in rw e refl

module _ (cmp : Str → Str → ℤ) (order : Order cmp) (alloc : ℕ → Bool) where
  -- The round of the loop that deletes at an index in range.
  sort_loop-round :
      (fuel : ℕ) (x : Str) (xs : List Str) (n : ℕ) (out_list : BstrList)
      → mini_of cmp (record { entry = x ∷ xs; mlen = n }) < suc (length xs)
      → let mini = mini_of cmp (record { entry = x ∷ xs; mlen = n }) in
        sort_loop cmp alloc (suc fuel) (record { entry = x ∷ xs; mlen = n }) out_list
        ≡ sort_loop cmp alloc fuel
            (record { entry = erase_at (x ∷ xs) mini; mlen = n })
            (add_unchecked alloc out_list (get_or (x ∷ xs) mini []))
  unfolding sort_loop
  sort_loop-round fuel x xs n out_list lt =
      let tmp : BstrList = record { entry = x ∷ xs; mlen = n } in
      rw (bstr_list_del-some tmp (mini_of cmp tmp) lt, sort_loop) refl

  sort_loop-nil :
      (fuel n : ℕ) (out_list : BstrList)
      → sort_loop cmp alloc fuel (record { entry = []; mlen = n }) out_list ≡ out_list
  unfolding sort_loop
  sort_loop-nil zero n out_list = refl
  sort_loop-nil (suc fuel) n out_list = refl

  -- The entries of `before` and of `rest` in ascending order.
  abbrev Sorts : List Str → List Str → BstrList → Type 0
  Sorts before rest sl = Perm sl.entry (before ++ rest) × Ascending cmp sl.entry

  sort_loop-Sorts :
      (fuel : ℕ) (xs : List Str) (n : ℕ) (out_list : BstrList)
      → ((k : ℕ) → alloc k ≡ true)
      → length xs ≤ fuel
      → Valid out_list
      → 2 * (qty out_list + length xs) ≤ int_max
      → Ascending cmp out_list.entry
      → All (λ a. All (Le cmp a) xs) out_list.entry
      → Sorts out_list.entry xs
          (sort_loop cmp alloc fuel (record { entry = xs; mlen = n }) out_list)
  sort_loop-Sorts fuel [] n out_list mem enough v small up below =
      rw (sort_loop-nil fuel n out_list) (
        subst (Perm out_list.entry) (sym (append-nil out_list.entry)) (Perm.refl out_list.entry),
        up,
      )
  sort_loop-Sorts zero (x ∷ xs) n out_list mem enough v small up below = absurd (omega arith)
  sort_loop-Sorts (suc fuel) (x ∷ xs) n out_list mem enough v small up below =
      let tmp : BstrList = record { entry = x ∷ xs; mlen = n } in
      let mini = mini_of cmp tmp in
      let (lt, least) = mini_of-Least cmp order tmp (omega arith) in
      let m = get_or (x ∷ xs) mini [] in
      let rest = erase_at (x ∷ xs) mini in
      let out' = add_unchecked alloc out_list m in
      let a = add_unchecked-Appended alloc out_list m mem v (omega arith) in
      let fewer = length-erase_at (x ∷ xs) mini lt in
      let len = ap length a.entries ∙ length-append out_list.entry (m ∷ []) in
      let up' : Ascending cmp out'.entry = subst (Ascending cmp) (sym a.entries) (
        Ascending-append cmp out_list.entry m up (
          All-map (λ y. Le cmp y m) out_list.entry
            (λ y le. All-get_or (Le cmp y) (x ∷ xs) mini [] lt le) below)) in
      let below' : All (λ y. All (Le cmp y) rest) out'.entry =
        subst (All (λ y. All (Le cmp y) rest)) (sym a.entries) (
          All-append (λ y. All (Le cmp y) rest) out_list.entry (m ∷ [])
            (All-map (λ y. All (Le cmp y) rest) out_list.entry
              (λ y le. All-erase_at (Le cmp y) (x ∷ xs) mini le) below)
            (All-erase_at (Le cmp m) (x ∷ xs) mini least, tt)) in
      let (perm, sorted) =
        sort_loop-Sorts fuel rest n out' mem (omega arith) a.valid (omega arith) up' below' in
      rw (sort_loop-round fuel x xs n out_list lt) (
        Perm.trans perm (
            subst (λ l. Perm l (out_list.entry ++ x ∷ xs))
              (sym (ap (λ l. l ++ rest) a.entries ∙ append_assoc out_list.entry (m ∷ []) rest))
              (Perm.append_left out_list.entry (perm-erase_at (x ∷ xs) mini [] lt))),
        sorted,
      )

  -- The sort of a list returns its entries in an order that no later entry comes before an earlier
  -- one, if memory is given, the new lists begin empty, twice the number of entries is an `int`, and
  -- the comparison is an order: an entry before another does not come after it, and not to come
  -- after is transitive.
  pub bstr_list_sort_func-Sorts :
      (created sl : BstrList)
      → ((k : ℕ) → alloc k ≡ true)
      → Valid created
      → created.entry ≡ []
      → 2 * qty sl ≤ int_max
      → Perm (bstr_list_sort_func cmp alloc created sl).entry sl.entry
        × Ascending cmp (bstr_list_sort_func cmp alloc created sl).entry
  unfolding bstr_list_sort_func
  bstr_list_sort_func-Sorts created sl mem v fresh small =
      let tmp = bstr_list_copy alloc created sl in
      let copied = bstr_list_copy-Extended alloc created sl mem v fresh small in
      let same : tmp.entry ≡ sl.entry = copied.entries ∙ ap (λ l. l ++ sl.entry) fresh in
      let (perm, sorted) =
        sort_loop-Sorts (qty tmp) tmp.entry tmp.mlen created mem (omega arith) v
          (omega (arith, ap length fresh, ap length same)) (subst (Ascending cmp) (sym fresh) tt)
          (subst (All (λ a. All (Le cmp a) tmp.entry)) (sym fresh) tt) in
      (
        subst (Perm (sort_loop cmp alloc (qty tmp) tmp created).entry)
            (ap (λ l. l ++ tmp.entry) fresh ∙ same) perm,
        sorted,
      )
