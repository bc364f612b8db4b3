-- ===== src/Bstrings/Removal/Deduped.antt =====
-- What the deletions of src/bstrlib_helper.c leave.
use mathlib.Core.Path.{subst}
use likwid_bench.Base.{
  ℕ, zero, suc, ◌≤◌, ◌≡◌, refl, sym, ◌∙◌, ap, ap₂, Bool, true, false, none, some, List, [], ◌∷◌,
  ◌++◌, append_assoc, length, length-append, get_elem?, All, leb, if◌then◌else◌, arith, Bool-cases,
  inl, inr,
}
use likwid_bench.Base.Int.{ℤ}
use likwid_bench.Base.Strings.{Str}
use likwid_bench.Bstrings.Entries.{BstrList, qty, erase_at, bstr_list_get, bstr_list_del}
use likwid_bench.Bstrings.Removal.{
  delete_from, is_ok, bstr_list_remove, repeats, dup_loop, bstr_list_remove_dup,
}

-- The entries that a test rejects.
unfoldable pub without : (Str → Bool) → List Str → List Str
without matches [] = []
without matches (e ∷ es) = let rest = without matches es in if matches e then rest else e ∷ rest

length-snoc : (pre : List Str) (e : Str) → length (pre ++ e ∷ []) ≡ suc (length pre)
length-snoc pre e = omega (arith, length-append pre (e ∷ []))

get_elem?-append :
    (pre : List Str) (e : Str) (rest : List Str) → get_elem? (pre ++ e ∷ rest) (length pre) ≡ some e
get_elem?-append [] e rest = refl
get_elem?-append (x ∷ pre) e rest = get_elem?-append pre e rest

erase_at-append :
    (pre : List Str) (e : Str) (rest : List Str)
    → erase_at (pre ++ e ∷ rest) (length pre) ≡ pre ++ rest
erase_at-append [] e rest = refl
erase_at-append (x ∷ pre) e rest = ap (◌∷◌ x) (erase_at-append pre e rest)

module _ (pre : List Str) (mlen : ℕ) where
  abbrev at_pre : List Str → BstrList
  at_pre rest = record { entry = pre ++ rest; mlen = mlen }

  get_none : bstr_list_get (at_pre []) (length pre) ≡ none
  unfolding bstr_list_get
  get_none =
      let past : leb (length (pre ++ [])) (length pre) ≡ true =
        ground (arith, length-append pre []) in
      rw past refl

  get_some : (e : Str) (rest : List Str) → bstr_list_get (at_pre (e ∷ rest)) (length pre) ≡ some e
  unfolding bstr_list_get
  get_some e rest =
      let inside : leb (length (pre ++ e ∷ rest)) (length pre) ≡ false =
        ground (arith, length-append pre (e ∷ rest)) in
      rw inside (get_elem?-append pre e rest)

  del_some :
      (e : Str) (rest : List Str)
      → bstr_list_del (at_pre (e ∷ rest)) (length pre) ≡ some (at_pre rest)
  unfolding bstr_list_del
  del_some e rest =
      let inside : leb (length (pre ++ e ∷ rest)) (length pre) ≡ false =
        ground (arith, length-append pre (e ∷ rest)) in
      rw (inside, erase_at-append pre e rest) refl

module _ (matches : Str → Bool) where
  delete_from-without :
      (fuel : ℕ) (pre rest : List Str) (mlen : ℕ)
      → length rest ≤ fuel
      → delete_from matches fuel (length pre) (record { entry = pre ++ rest; mlen = mlen })
        ≡ record { entry = pre ++ without matches rest; mlen = mlen }
  unfolding delete_from without
  delete_from-without zero pre [] mlen enough = refl
  delete_from-without zero pre (e ∷ rest) mlen enough = absurd (omega arith)
  delete_from-without (suc fuel) pre [] mlen enough = rw (get_none pre mlen, delete_from) refl
  delete_from-without (suc fuel) pre (e ∷ rest) mlen enough = elim (Bool-cases (matches e)) [
    | inl hit ↦
        rw (get_some pre mlen e rest, hit, del_some pre mlen e rest, delete_from)
          (delete_from-without fuel pre rest mlen (omega arith))
    | inr miss ↦
        rw (get_some pre mlen e rest, miss, delete_from)
          (ap₂ (λ i l. delete_from matches fuel i (record { entry = l; mlen = mlen }))
              (sym (length-snoc pre e)) (sym (append_assoc pre (e ∷ []) rest))
            ∙ delete_from-without fuel (pre ++ e ∷ []) rest mlen (omega arith)
            ∙ ap (λ l. record { entry = l; mlen = mlen })
                (append_assoc pre (e ∷ []) (without matches rest)))
  ]

  length-without : (es : List Str) → length (without matches es) ≤ length es
  unfolding without
  length-without [] = omega arith
  length-without (e ∷ es) = elim (Bool-cases (matches e)) [
    | inl hit ↦ rw (hit, without) (omega (arith, length-without es))
    | inr miss ↦ rw (miss, without) (omega (arith, length-without es))
  ]

  without-All : (es : List Str) → All (λ e. matches e ≡ false) (without matches es)
  unfolding without
  without-All [] = tt
  without-All (e ∷ es) = elim (Bool-cases (matches e)) [
    | inl hit ↦ rw (hit, without) (without-All es)
    | inr miss ↦ rw (miss, without) (miss, without-All es)
  ]

-- The first entry stays, what it matches goes, and so on with what is left.
pub data Deduped (same : Str → Str → Bool) : List Str → List Str → Type 0 where
  nil : Deduped same [] []
  keep :
      (x : Str) (xs ys : List Str)
      → Deduped same (without (same x) xs) ys
      → Deduped same (x ∷ xs) (x ∷ ys)

module _ (bstrncmp : Str → Str → ℕ → ℤ) where
  dup_loop-Deduped :
      (fuel : ℕ) (pre rest : List Str) (mlen : ℕ)
      → length rest ≤ fuel
      → (ys : List Str) × (dup_loop bstrncmp fuel
            (length pre)
            (record { entry = pre ++ rest; mlen = mlen })
          ≡ record { entry = pre ++ ys; mlen = mlen })
        × Deduped (repeats bstrncmp) rest ys
  unfolding dup_loop
  dup_loop-Deduped zero pre [] mlen enough = ([], refl, nil)
  dup_loop-Deduped zero pre (x ∷ xs) mlen enough = absurd (omega arith)
  dup_loop-Deduped (suc fuel) pre [] mlen enough = ([], rw (get_none pre mlen, dup_loop) refl, nil)
  dup_loop-Deduped (suc fuel) pre (x ∷ xs) mlen enough =
      let same = repeats bstrncmp x in
      let left = without same xs in
      let (ys, e, d) =
        dup_loop-Deduped fuel (pre ++ x ∷ []) left mlen (omega (arith, length-without same xs)) in
      let size : length xs ≤ length (pre ++ x ∷ xs) = omega (arith, length-append pre (x ∷ xs)) in
      let deleted =
        delete_from-without same (length (pre ++ x ∷ xs)) (pre ++ x ∷ []) xs mlen size in
      let moved : delete_from same (length (pre ++ x ∷ xs)) (suc (length pre))
            (record { entry = pre ++ x ∷ xs; mlen = mlen })
          ≡ record { entry = (pre ++ x ∷ []) ++ left; mlen = mlen } =
        ap₂ (λ i l. delete_from same (length (pre ++ x ∷ xs)) i (record { entry = l; mlen = mlen }))
          (sym (length-snoc pre x)) (sym (append_assoc pre (x ∷ []) xs))
        ∙ deleted in
      (
        x ∷ ys,
        rw (get_some pre mlen x xs, moved, dup_loop)
            (ap
                (λ i.
                  dup_loop bstrncmp fuel i
                    (record { entry = (pre ++ x ∷ []) ++ left; mlen = mlen }))
                (sym (length-snoc pre x))
              ∙ e
              ∙ ap (λ l. record { entry = l; mlen = mlen }) (append_assoc pre (x ∷ []) ys)),
        keep x xs ys d,
      )

-- `bstrListRemove` leaves the entries that do not compare equal to the string, in their order, and
-- `bstrListRemoveDup` keeps the first entry, drops what agrees with it on its own length, and goes
-- on so with what is left.
pub bstr_list_remove-without :
    (bstrcmp : Str → Str → ℤ) (bstrncmp : Str → Str → ℕ → ℤ) (sl : BstrList) (s : Str)
    → ((bstr_list_remove bstrcmp sl s).entry ≡ without (λ e. is_ok (bstrcmp s e)) sl.entry)
      × Deduped (repeats bstrncmp) sl.entry (bstr_list_remove_dup bstrncmp sl).entry
unfolding bstr_list_remove bstr_list_remove_dup
bstr_list_remove-without bstrcmp bstrncmp sl s =
    let (ys, e, d) = dup_loop-Deduped bstrncmp (qty sl) [] sl.entry sl.mlen (omega arith) in
    (
      ap (λ l. l.entry)
          (delete_from-without (λ e. is_ok (bstrcmp s e)) (qty sl) [] sl.entry sl.mlen
            (omega arith)),
      subst (Deduped (repeats bstrncmp) sl.entry) (sym (ap (λ l. l.entry) e)) d,
    )
