-- ===== src/Calculator/Lexer/Scan.antt =====
-- The scanning loops of `tokenize` in src/calculator.c: what they take and what they leave.
use likwid_bench.Base.{
  ℕ, suc, ◌-◌, ◌≤◌, ◌≡◌, refl, ap, Bool, true, false, not, ◌&&◌, ◌||◌, Option, [], ◌∷◌, ◌++◌,
  if◌then◌else◌, length, leb, ltb, ◌==◌, length-append, arith, Bool-cases, inl, inr,
}
use likwid_bench.Base.Strings.{Str}
use likwid_bench.Calculator.Chars.{
  Symbol, addop, multop, expop, lparen, rparen, digit, decimal, text, argsep, Token, char_type,
  symbol_eq,
}
use likwid_bench.Calculator.Lexer.{
  is_decimal, is_exponent, number_char, scan_number, scan_text, behind, number_token, text_token,
  Counts, Round, single, sign, assemble, at_operand,
}

-- A scan takes a prefix of the string, as long as the token has at most the maximal length.
abbrev pub Splits : ℕ → ℕ → Str → Str × Str → Type 0
Splits max_token_length len s (taken, rest) =
    (taken ++ rest ≡ s) × (length taken ≤ suc max_token_length - len)

Splits-step :
    (m len : ℕ) (test : Bool) (ch : ℕ) (s : Str) (r : Str × Str)
    → (test ≡ true → len ≤ m)
    → Splits m (suc len) s r
    → Splits m len (ch ∷ s) (if test then (ch ∷ r.0, r.1) else ([], ch ∷ s))
Splits-step m len true ch s (taken, rest) room (e, h) =
    let le = room refl in (ap (λ t. ch ∷ t) e, omega arith)
Splits-step m len false ch s (taken, rest) room h = (refl, omega arith)

number_room : (m len : ℕ) (b : Bool) → (leb len m && b) ≡ true → len ≤ m
number_room m len b h = ground arith

text_room : (m len : ℕ) (b : Bool) → (b && leb len m) ≡ true → len ≤ m
text_room m len b h = ground arith

scan_number-Splits :
    (m len : ℕ) (has_decimal has_exponent : Bool) (s : Str)
    → Splits m len s (scan_number m len has_decimal has_exponent s)
unfolding scan_number
scan_number-Splits m len has_decimal has_exponent [] = (refl, omega arith)
scan_number-Splits m len has_decimal has_exponent (ch ∷ s) =
    Splits-step m len (leb len m && number_char has_decimal has_exponent ch) ch s
      (scan_number m (suc len) (has_decimal || is_decimal ch)
        (has_exponent || (not (is_decimal ch) && is_exponent ch)) s)
      (number_room m len (number_char has_decimal has_exponent ch))
      (scan_number-Splits m (suc len) (has_decimal || is_decimal ch)
        (has_exponent || (not (is_decimal ch) && is_exponent ch)) s)

scan_text-Splits : (m len : ℕ) (s : Str) → Splits m len s (scan_text m len s)
unfolding scan_text
scan_text-Splits m len [] = (refl, omega arith)
scan_text-Splits m len (ch ∷ s) =
    Splits-step m len (symbol_eq (char_type ch) text && leb len m) ch s (scan_text m (suc len) s)
      (text_room m len (symbol_eq (char_type ch) text)) (scan_text-Splits m (suc len) s)

-- The round does not lengthen the string, and its token has at most one character more than the
-- maximal length (two, where that is 0).
abbrev pub longest : ℕ → ℕ
longest m = if m == 0 then 2 else suc m

abbrev Bounded : ℕ → Str → Str × Str → Type 0
Bounded m s (tk, rest) = (length rest ≤ length s) × (length tk ≤ longest m)

behind-Bounded :
    (m : ℕ) (start s : Str) (r : Str × Str)
    → 1 ≤ length start
    → length start ≤ 2
    → Splits m (length start) s r
    → Bounded m s (behind start r)
behind-Bounded m start s (taken, rest) ge le (e, h) = (
  omega (arith, length-append taken rest, ap length e),
  ground (arith, length-append start taken),
)

number_token-Bounded : (m ch : ℕ) (s : Str) → Bounded m s (number_token m ch s)
unfolding number_token
number_token-Bounded m ch s = elim (Bool-cases (is_decimal ch)) [
  | inl point ↦ rw point (
      behind-Bounded m (b'0' ∷ (b'.' ∷ [])) s (scan_number m 2 true false s) (omega arith)
        (omega arith) (scan_number-Splits m 2 true false s))
  | inr other ↦ rw other (
      behind-Bounded m (ch ∷ []) s (scan_number m 1 false false s) (omega arith) (omega arith)
        (scan_number-Splits m 1 false false s))
]

text_token-Bounded : (m ch : ℕ) (s : Str) → Bounded m s (text_token m ch s)
unfolding text_token
text_token-Bounded m ch s =
    behind-Bounded m (ch ∷ []) s (scan_text m 1 s) (omega arith) (omega arith)
      (scan_text-Splits m 1 s)

abbrev Kept : ℕ → Str → Round → Type 0
Kept m s (tk, rest, counts) = Bounded m s (tk, rest)

single-Kept : (m ch : ℕ) (s : Str) (counts : Counts) → Kept m s (single ch s counts)
single-Kept m ch s counts = (omega arith, ground arith)

sign-Kept :
    (m : ℕ) (last : Option Token) (ch : ℕ) (s : Str) (counts : Counts)
    → Kept m s (sign m last ch s counts)
unfolding sign
sign-Kept m last ch s counts =
    elim (Bool-cases
      (ch == b'-' && (at_operand last && ltb 1 (length ((number_token m ch s).0))))) [
        | inl minus ↦ rw minus (number_token-Bounded m ch s)
        | inr other ↦ rw other (single-Kept m ch s counts)
      ]

pub assemble-Kept :
    (m : ℕ) (sym : Symbol) (last : Option Token) (ch : ℕ) (s : Str) (counts : Counts)
    → Kept m s (assemble m sym last ch s counts)
unfolding assemble
assemble-Kept m addop last ch s counts = sign-Kept m last ch s counts
assemble-Kept m multop last ch s counts = single-Kept m ch s counts
assemble-Kept m expop last ch s counts = single-Kept m ch s counts
assemble-Kept m lparen last ch s counts = single-Kept m ch s counts
assemble-Kept m rparen last ch s counts = single-Kept m ch s counts
assemble-Kept m argsep last ch s counts = single-Kept m ch s counts
assemble-Kept m digit last ch s counts = number_token-Bounded m ch s
assemble-Kept m decimal last ch s counts = number_token-Bounded m ch s
assemble-Kept m text last ch s counts = text_token-Bounded m ch s
assemble-Kept m _ last ch s counts = (omega arith, ground arith)
