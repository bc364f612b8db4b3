-- ===== src/Bstrings/Tokens/Pieces.antt =====
-- The pieces of a text for `bstrtok_delimters` of src/bstrlib_helper.c.
use mathlib.Core.Path.{subst}
use likwid_bench.Base.{
  ℕ, ◌+◌, ◌≤◌, ◌<◌, ◌≡◌, refl, sym, ◌∙◌, ap, ap₂, Bool, true, false, ◌⊎◌, List, [], ◌∷◌, ◌++◌,
  append-nil, append_assoc, length, length-append, All, All-append, arith, Bool-cases, inl, inr,
}
use likwid_bench.Base.Strings.{Str}
use likwid_bench.Bstrings.Tokens.{delimiters, strchr}

abbrev pub is_delimiter : ℕ → Bool
is_delimiter c = strchr delimiters c

-- The word collected so far, as a list of pieces.
abbrev pub word : Str → List Str
word [] = []
word (c ∷ w) = (c ∷ w) ∷ []

-- The pieces of a text after a word that has been read.
unfoldable pub pieces : (pending rest : Str) → List Str
pieces pending [] = word pending
pieces pending (c ∷ rest) = elim (is_delimiter c) [
  | true ↦ word pending ++ (c ∷ []) ∷ pieces [] rest
  | false ↦ pieces (pending ++ c ∷ []) rest
]

pieces-delimiter :
    (pending : Str) (c : ℕ) (rest : Str)
    → is_delimiter c ≡ true
    → pieces pending (c ∷ rest) ≡ word pending ++ (c ∷ []) ∷ pieces [] rest
unfolding pieces
pieces-delimiter pending c rest d = rw (d, pieces) refl

pieces-other :
    (pending : Str) (c : ℕ) (rest : Str)
    → is_delimiter c ≡ false
    → pieces pending (c ∷ rest) ≡ pieces (pending ++ c ∷ []) rest
unfolding pieces
pieces-other pending c rest d = rw (d, pieces) refl

-- A piece is a delimiter, or a word without one.
abbrev pub IsDelimiter : Str → Type 0
IsDelimiter p = (c : ℕ) × (p ≡ c ∷ []) × (is_delimiter c ≡ true)

abbrev pub IsWord : Str → Type 0
IsWord p = (0 < length p) × All (λ c. is_delimiter c ≡ false) p

-- Words and delimiters, and no word directly after another.
abbrev pub AreTokens : List Str → Type 0
AreTokens [] = Unit
AreTokens (p ∷ []) = IsDelimiter p ⊎ IsWord p
AreTokens (p ∷ q ∷ ps) = (IsDelimiter p ⊎ (IsWord p × IsDelimiter q)) × AreTokens (q ∷ ps)

abbrev pub concat : List Str → Str
concat [] = []
concat (p ∷ ps) = p ++ concat ps

pub concat-append : (ps qs : List Str) → concat (ps ++ qs) ≡ concat ps ++ concat qs
concat-append [] qs = refl
concat-append (p ∷ ps) qs =
    ap (λ s. p ++ s) (concat-append ps qs) ∙ sym (append_assoc p (concat ps) (concat qs))

concat-word : (w : Str) → concat (word w) ≡ w
concat-word [] = refl
concat-word (c ∷ w) = append-nil (c ∷ w)

pub concat-pieces : (pending rest : Str) → concat (pieces pending rest) ≡ pending ++ rest
unfolding pieces
concat-pieces pending [] = concat-word pending ∙ sym (append-nil pending)
concat-pieces pending (c ∷ rest) = elim (Bool-cases (is_delimiter c)) [
  | inl d ↦
      ap concat (pieces-delimiter pending c rest d)
      ∙ concat-append (word pending) ((c ∷ []) ∷ pieces [] rest)
      ∙ ap₂ ◌++◌ (concat-word pending) (ap (◌∷◌ c) (concat-pieces [] rest))
  | inr w ↦
      ap concat (pieces-other pending c rest w)
      ∙ concat-pieces (pending ++ c ∷ []) rest
      ∙ append_assoc pending (c ∷ []) rest
]

AreTokens-cons :
    (c : ℕ) (ps : List Str) → is_delimiter c ≡ true → AreTokens ps → AreTokens ((c ∷ []) ∷ ps)
AreTokens-cons c [] d h = inl (c, refl, d)
AreTokens-cons c (p ∷ ps) d h = (inl (c, refl, d), h)

AreTokens-word :
    (w : Str) (c : ℕ) (ps : List Str)
    → All (λ x. is_delimiter x ≡ false) w
    → is_delimiter c ≡ true
    → AreTokens ps
    → AreTokens (word w ++ (c ∷ []) ∷ ps)
AreTokens-word [] c ps plain d h = AreTokens-cons c ps d h
AreTokens-word (x ∷ w) c ps plain d h =
    (inr ((omega arith, plain), (c, refl, d)), AreTokens-cons c ps d h)

AreTokens-end : (w : Str) → All (λ x. is_delimiter x ≡ false) w → AreTokens (word w)
AreTokens-end [] plain = tt
AreTokens-end (x ∷ w) plain = inr (omega arith, plain)

pub pieces-AreTokens :
    (pending rest : Str)
    → All (λ x. is_delimiter x ≡ false) pending
    → AreTokens (pieces pending rest)
unfolding pieces
pieces-AreTokens pending [] plain = AreTokens-end pending plain
pieces-AreTokens pending (c ∷ rest) plain = elim (Bool-cases (is_delimiter c)) [
  | inl d ↦
      subst AreTokens (sym (pieces-delimiter pending c rest d))
        (AreTokens-word pending c (pieces [] rest) plain d (pieces-AreTokens [] rest tt))
  | inr w ↦ subst AreTokens (sym (pieces-other pending c rest w)) (
      pieces-AreTokens (pending ++ c ∷ []) rest
        (All-append (λ x. is_delimiter x ≡ false) pending (c ∷ []) plain (w, tt)))
]

pub length-word : (w : Str) → length (word w) ≤ length w
length-word [] = omega arith
length-word (x ∷ w) = omega arith

length-pieces : (pending rest : Str) → length (pieces pending rest) ≤ length pending + length rest
unfolding pieces
length-pieces pending [] = omega (arith, length-word pending)
length-pieces pending (c ∷ rest) = elim (Bool-cases (is_delimiter c)) [
  | inl d ↦ omega (
    arith,
    ap length (pieces-delimiter pending c rest d),
    length-append (word pending) ((c ∷ []) ∷ pieces [] rest),
    length-word pending,
    length-pieces [] rest,
  )
  | inr w ↦ omega (
    arith,
    ap length (pieces-other pending c rest w),
    length-append pending (c ∷ []),
    length-pieces (pending ++ c ∷ []) rest,
  )
]
