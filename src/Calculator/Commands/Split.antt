-- ===== src/Calculator/Commands/Split.antt =====
-- `strSplit` of src/calculator.c against joining with the separator.
use likwid_bench.Base.{
  ℕ, ◌≡◌, refl, sym, ◌∙◌, ap, true, false, some, List, [], ◌∷◌, ◌++◌, append_assoc, append-nil,
  ◌==◌, arith,
}
use likwid_bench.Base.Strings.{Str}
use likwid_bench.Calculator.Commands.{split_loop, str_split}

-- A word: not empty, and without the separator.
abbrev pub Without : ℕ → Str → Type 0
Without split [] = Unit
Without split (ch ∷ s) = ((ch == split) ≡ false) × Without split s

abbrev pub Word : ℕ → Str → Type 0
Word split [] = ⊥
Word split (ch ∷ s) = Without split (ch ∷ s)

abbrev pub Words : ℕ → List Str → Type 0
Words split [] = Unit
Words split (word ∷ words) = Word split word × Words split words

-- Each further word stands behind one separator.
abbrev pub tail_text : ℕ → List Str → Str
tail_text split [] = []
tail_text split (word ∷ words) = split ∷ (word ++ tail_text split words)

abbrev pub join : ℕ → List Str → Str
join split [] = []
join split (word ∷ words) = word ++ tail_text split words

same : (split : ℕ) → (split == split) ≡ true
same split = ground arith

-- The loop on the rest of a word, in front of words that it splits.
split_rest :
    (split : ℕ) (words : List Str) (part s : Str)
    → Without split s
    → ((part' : Str) → split_loop split (some part') (tail_text split words) ≡ part' ∷ words)
    → split_loop split (some part) (s ++ tail_text split words) ≡ (part ++ s) ∷ words
unfolding split_loop
split_rest split words part [] free on_tail =
    on_tail part ∙ ap (λ p. p ∷ words) (sym (append-nil part))
split_rest split words part (ch ∷ s) free on_tail = rw (free.0) (
    split_rest split words (part ++ (ch ∷ [])) s (free.1) on_tail
    ∙ ap (λ p. p ∷ words) (append_assoc part (ch ∷ []) s))

split_tail :
    (split : ℕ) (words : List Str) (part : Str)
    → Words split words
    → split_loop split (some part) (tail_text split words) ≡ part ∷ words
unfolding split_loop
split_tail split [] part h = refl
split_tail split ([] ∷ words) part (h, hs) = absurd h
split_tail split ((ch ∷ s) ∷ words) part (h, hs) = rw (same split) (
    ap (λ ws. part ∷ ws)
      (split_rest split words (ch ∷ []) s (h.1) (λ part'. split_tail split words part' hs)))

-- strSplit returns the words of a text that are joined by one separator each, where no word is empty
-- or has the separator in it.
pub str_split-join :
    (split : ℕ) (words : List Str) → Words split words → str_split (join split words) split ≡ words
unfolding str_split split_loop
str_split-join split [] h = refl
str_split-join split ([] ∷ words) (h, hs) = absurd h
str_split-join split ((ch ∷ s) ∷ words) (h, hs) =
    split_rest split words (ch ∷ []) s (h.1) (λ part. split_tail split words part hs)
