-- ===== src/Calculator/Lexer/Total.antt =====
-- The end of the loop of `tokenize` in src/calculator.c, and the length of its tokens.
use likwid_bench.Base.{
  ℕ, zero, suc, ◌+◌, ◌≤◌, ◌<◌, ◌≡◌, refl, ap, false, Option, none, some, List, [], ◌∷◌, ◌==◌,
  length, arith, Bool-cases, inl, inr, Result, ok, err, efault,
}
use likwid_bench.Base.Strings.{Str}
use likwid_bench.Calculator.Chars.{invalid, Token, char_type, symbol_eq}
use likwid_bench.Calculator.Lexer.{
  Counts, Lexed, assemble, prepend, last_of, lex, checked, check_all, tokenize,
}
use likwid_bench.Calculator.Lexer.Scan.{longest, assemble-Kept}

-- The loop on as much fuel as the string needs.
abbrev pub lexed : ℕ → Option Token → Counts → Str → Option Lexed
lexed m last counts s = lex (suc (length s)) m last counts s

lex_fuel :
    (n k m : ℕ) (last : Option Token) (counts : Counts) (s : Str)
    → length s < n
    → length s < k
    → lex n m last counts s ≡ lex k m last counts s
unfolding lex
lex_fuel zero k m last counts s hn hk = absurd (omega arith)
lex_fuel (suc n) zero m last counts s hn hk = absurd (omega arith)
lex_fuel (suc n) (suc k) m last counts [] hn hk = refl
lex_fuel (suc n) (suc k) m last counts (ch ∷ s) hn hk =
    elim (Bool-cases (symbol_eq (char_type ch) invalid)) [
      | inl stop ↦ rw (stop, lex) refl
      | inr go ↦
          let r = assemble m (char_type ch) last ch s counts in
          let kept = (assemble-Kept m (char_type ch) last ch s counts).0 in
          rw (go, lex)
            (ap (prepend (r.0))
              (lex_fuel n k m (last_of (r.0) last) (r.2) (r.1) (omega arith) (omega arith)))
    ]

-- One round of the loop.
pub lexed-cons :
    (m : ℕ) (last : Option Token) (counts : Counts) (ch : ℕ) (s : Str)
    → symbol_eq (char_type ch) invalid ≡ false
    → lexed m last counts (ch ∷ s) ≡ (
        let (tk, rest, counts') = assemble m (char_type ch) last ch s counts in
        prepend tk (lexed m (last_of tk last) counts' rest))
unfolding lex
lexed-cons m last counts ch s go =
    let r = assemble m (char_type ch) last ch s counts in
    let kept = (assemble-Kept m (char_type ch) last ch s counts).0 in
    rw (go, lex)
      (ap (prepend (r.0)) (
        lex_fuel (suc (length s)) (suc (length (r.1))) m (last_of (r.0) last) (r.2) (r.1)
          (omega arith) (omega arith)))

-- Every token has at most `n` characters.
abbrev pub Within : ℕ → List Token → Type 0
Within n [] = Unit
Within n (tk ∷ tokens) = (length tk ≤ n) × Within n tokens

abbrev Ends : ℕ → Option Lexed → Type 0
Ends n none = ⊥
Ends n (some (tokens, counts)) = Within n tokens

prepend-Ends :
    (n : ℕ) (tk : Token) (o : Option Lexed) → length tk ≤ n → Ends n o → Ends n (prepend tk o)
prepend-Ends n tk none le h = absurd h
prepend-Ends n [] (some lexed) le h = h
prepend-Ends n (c ∷ tk) (some lexed) le h = (le, h)

lex-Ends :
    (n m : ℕ) (last : Option Token) (counts : Counts) (s : Str)
    → length s < n
    → Ends (longest m) (lex n m last counts s)
unfolding lex
lex-Ends zero m last counts s h = absurd (omega arith)
lex-Ends (suc n) m last counts [] h = tt
lex-Ends (suc n) m last counts (ch ∷ s) h = elim (Bool-cases (symbol_eq (char_type ch) invalid)) [
  | inl stop ↦ rw (stop, lex) tt
  | inr go ↦
      let r = assemble m (char_type ch) last ch s counts in
      let kept = assemble-Kept m (char_type ch) last ch s counts in
      let shorter = kept.0 in
      rw (go, lex)
        (prepend-Ends (longest m) (r.0) (lex n m (last_of (r.0) last) (r.2) (r.1)) (kept.1)
          (lex-Ends n m (last_of (r.0) last) (r.2) (r.1) (omega arith)))
]

-- What `tokenize` returns: an error, or tokens that fit the bound.
abbrev pub Accepted : ℕ → Option (Result (List Token)) → Type 0
Accepted n none = ⊥
Accepted n (some (ok tokens)) = Within n tokens
Accepted n (some (err e)) = e ≡ efault

checked-Accepted : (n : ℕ) (lexed : Lexed) → Within n (lexed.0) → Accepted n (some (checked lexed))
checked-Accepted n (tokens, (l, r, o)) h = elim (Bool-cases (l == r)) [
  | inl same ↦ elim (Bool-cases (length tokens == l + r + o)) [
    | inl faulty ↦ rw (same, faulty) refl
    | inr fine ↦ rw (same, fine) h
  ]
  | inr other ↦ rw other refl
]

check_all-Accepted : (n : ℕ) (o : Option Lexed) → Ends n o → Accepted n (check_all o)
check_all-Accepted n none h = h
check_all-Accepted n (some lexed) h = checked-Accepted n lexed h

-- tokenize returns on every string: -EFAULT, or tokens of at most one character more than the maximal
-- token length (two, where that length is 0). This is about the texts of the tokens: the buffer in
-- which they are built is not part of it.
pub tokenize-Accepted : (m : ℕ) (s : Str) → Accepted (longest m) (tokenize m s)
unfolding tokenize
tokenize-Accepted m [] = refl
tokenize-Accepted m (ch ∷ s) =
    check_all-Accepted (longest m) (lex (suc (length (ch ∷ s))) m none (0, 0, 0) (ch ∷ s))
      (lex-Ends (suc (length (ch ∷ s))) m none (0, 0, 0) (ch ∷ s) (omega arith))
