-- ===== src/Bstrings/Tokens/Adds.antt =====
-- What `bstrtok_delimters` of src/bstrlib_helper.c adds to a list.
use mathlib.Core.Path.{subst}
use likwid_bench.Base.{
  ℕ, suc, ◌+◌, ◌-◌, ◌*◌, ◌≤◌, ◌≡◌, refl, sym, ◌∙◌, ap, ap₂, Bool, true, false, List, [], ◌∷◌, ◌++◌,
  append-nil, append_assoc, length, length-append, take, drop, ltb, arith, Bool-cases, inl, inr,
}
use likwid_bench.Base.Strings.{Str}
use likwid_bench.Bstrings.Entries.{BstrList, qty, int_max, add_unchecked}
use likwid_bench.Bstrings.Entries.Growth.{
  Valid, Extended, Extended-trans, qty-Extended, add_unchecked-Extended,
}
use likwid_bench.Bstrings.Tokens.{add_block, add_word, tok_loop, bstrtok_delimters}
use likwid_bench.Bstrings.Tokens.Pieces.{
  is_delimiter, word, pieces, AreTokens, concat, concat-pieces, pieces-AreTokens, length-word,
}

drop-append {ℓ} : {A : Type ℓ} (xs ys : List A) → drop (length xs) (xs ++ ys) ≡ ys
drop-append [] ys = refl
drop-append (x ∷ xs) ys = drop-append xs ys

take-append {ℓ} : {A : Type ℓ} (xs ys : List A) → take (length xs) (xs ++ ys) ≡ xs
take-append [] ys = refl
take-append (x ∷ xs) ys = ap (◌∷◌ x) (take-append xs ys)

-- The block of `s` that starts after `pre` is `mid`.
block :
    (s pre mid post : Str) (start len : ℕ)
    → s ≡ pre ++ (mid ++ post)
    → start ≡ length pre
    → len ≡ length mid
    → take len (drop start s) ≡ mid
block s pre mid post start len e at by =
    ap₂ (λ k l. take k l) by (ap₂ (λ k l. drop k l) at e ∙ drop-append pre (mid ++ post))
    ∙ take-append mid post

Extended-refl : (sl : BstrList) → Valid sl → Extended sl [] sl
Extended-refl sl v = record {
  entries = sym (append-nil sl.entry);
  valid = v;
  capacity = omega arith;
}

module _ (alloc : ℕ → Bool) (mem : (n : ℕ) → alloc n ≡ true) where
  add_block-Extended :
      (s pre mid post : Str) (start len : ℕ) (blist : BstrList)
      → s ≡ pre ++ (mid ++ post)
      → start ≡ length pre
      → len ≡ length mid
      → Valid blist
      → 2 * suc (qty blist) ≤ int_max
      → Extended blist (mid ∷ []) (add_block alloc s start len blist)
  unfolding add_block
  add_block-Extended s pre mid post start len blist e at by v small =
      subst (λ b. Extended blist (mid ∷ []) (add_unchecked alloc blist b))
        (sym (block s pre mid post start len e at by))
        (add_unchecked-Extended alloc blist mid mem v small)

  add_word-Extended :
      (s pre pending post : Str) (start i : ℕ) (blist : BstrList)
      → s ≡ pre ++ (pending ++ post)
      → start ≡ length pre
      → i ≡ length pre + length pending
      → Valid blist
      → 2 * (qty blist + length pending) ≤ int_max
      → Extended blist (word pending) (add_word alloc s start i blist)
  unfolding add_word
  add_word-Extended s pre [] post start i blist e at to v small =
      let none_read : ltb start i ≡ false = ground arith in
      rw (none_read, add_word) (Extended-refl blist v)
  add_word-Extended s pre (x ∷ w) post start i blist e at to v small =
      let read : ltb start i ≡ true = ground arith in
      rw (read, add_word)
        (add_block-Extended s pre (x ∷ w) post start (i - start) blist e at (omega arith) v
          (omega arith))

  tok_loop-Extended :
      (s pre pending rest : Str) (start i : ℕ) (blist : BstrList)
      → s ≡ pre ++ (pending ++ rest)
      → start ≡ length pre
      → i ≡ length pre + length pending
      → Valid blist
      → 2 * (qty blist + (length pending + length rest)) ≤ int_max
      → Extended blist (pieces pending rest) (tok_loop alloc s rest start i blist)
  unfolding tok_loop pieces
  tok_loop-Extended s pre pending [] start i blist e at to v small =
      add_word-Extended s pre pending [] start i blist e at to v (omega arith)
  tok_loop-Extended s pre pending (c ∷ rest) start i blist e at to v small =
      let there : length (pre ++ pending) ≡ i = omega (arith, length-append pre pending) in
      let split : s ≡ (pre ++ pending) ++ (c ∷ rest) =
        e ∙ sym (append_assoc pre pending (c ∷ rest)) in
      elim (Bool-cases (is_delimiter c)) [
        | inl d ↦
            let b1 = add_word alloc s start i blist in
            let b2 = add_block alloc s i 1 b1 in
            let x1 =
              add_word-Extended s pre pending (c ∷ rest) start i blist e at to v (omega arith) in
            let q1 = qty-Extended blist b1 (word pending) x1 in
            let x2 =
              add_block-Extended s (pre ++ pending) (c ∷ []) rest i 1 b1 split (sym there) refl
                x1.valid (omega (arith, length-word pending)) in
            let q2 = qty-Extended b1 b2 ((c ∷ []) ∷ []) x2 in
            let x3 =
              tok_loop-Extended s ((pre ++ pending) ++ c ∷ []) [] rest (suc i) (suc i) b2
                (split ∙ sym (append_assoc (pre ++ pending) (c ∷ []) rest))
                (omega (arith, length-append (pre ++ pending) (c ∷ [])))
                (omega (arith, length-append (pre ++ pending) (c ∷ []))) x2.valid
                (omega (arith, length-word pending)) in
            let fin = tok_loop alloc s rest (suc i) (suc i) b2 in
            rw (d, tok_loop, pieces)
              (Extended-trans blist b1 fin (word pending) ((c ∷ []) ∷ pieces [] rest) x1
                (Extended-trans b1 b2 fin ((c ∷ []) ∷ []) (pieces [] rest) x2 x3))
        | inr w ↦
            rw (w, tok_loop, pieces)
              (tok_loop-Extended s pre (pending ++ c ∷ []) rest start (suc i) blist
                (e ∙ ap (λ l. pre ++ l) (sym (append_assoc pending (c ∷ []) rest))) at
                (omega (arith, length-append pending (c ∷ []))) v
                (omega (arith, length-append pending (c ∷ []))))
      ]

-- The entries that a text adds to a list are its words and its delimiters: put together they are the
-- C string of the text, each is one delimiter or a word without one, no word directly follows a
-- word, and the entries that the list had come first, all of them within the capacity, if memory is
-- given and twice the number of entries and bytes is an `int`.
pub bstrtok_delimters-AreTokens :
    (alloc : ℕ → Bool) (bstr2cstr : Str → ℕ → Str) (input : Str) (blist : BstrList)
    → ((n : ℕ) → alloc n ≡ true)
    → Valid blist
    → 2 * (qty blist + length (bstr2cstr input b' ')) ≤ int_max
    → (tokens : List Str) × Extended blist tokens (bstrtok_delimters alloc bstr2cstr input blist)
      × (concat tokens ≡ bstr2cstr input b' ')
      × AreTokens tokens
unfolding bstrtok_delimters
bstrtok_delimters-AreTokens alloc bstr2cstr input blist mem v small =
    let s = bstr2cstr input b' ' in
    (
      pieces [] s,
      tok_loop-Extended alloc mem s [] [] s 0 0 blist refl refl refl v (omega (arith, small)),
      concat-pieces [] s,
      pieces-AreTokens [] s tt,
    )
