-- ===== src/Calculator/Lexer/Print.antt =====
-- The scans of `tokenize` in src/calculator.c on the text of a number and of a name.
use likwid_bench.Base.{
  ℕ, suc, ◌+◌, ◌≤◌, ◌≡◌, refl, Bool, true, false, not, ◌&&◌, ◌||◌, [], ◌∷◌, ◌++◌, ◌==◌, ==→eq,
  length, leb, arith, Bool-cases, inl, inr,
}
use likwid_bench.Base.Strings.{Str}
use likwid_bench.Calculator.Chars.{
  Symbol, addop, multop, expop, lparen, rparen, digit, decimal, text, argsep, invalid, char_type,
  symbol_eq,
}
use likwid_bench.Calculator.Lexer.{
  is_decimal, is_exponent, number_char, scan_number, scan_text, number_token, text_token,
}

-- A character that ends a number and a name.
unfoldable pub stops : Symbol → Bool
stops addop = true
stops multop = true
stops expop = true
stops lparen = true
stops rparen = true
stops argsep = true
stops other = false

abbrev pub Stop : Str → Type 0
Stop [] = Unit
Stop (ch ∷ s) = stops (char_type ch) ≡ true

-- Digits with one decimal point at most.
abbrev pub numeral_char : Symbol → Bool → Bool
numeral_char digit has_decimal = true
numeral_char decimal has_decimal = not has_decimal
numeral_char other has_decimal = false

unfoldable pub is_numeral : Bool → Str → Bool
is_numeral has_decimal [] = true
is_numeral has_decimal (ch ∷ s) =
    let rest = is_numeral (has_decimal || is_decimal ch) s in
    numeral_char (char_type ch) has_decimal && rest

unfoldable pub is_name : Str → Bool
unfolding symbol_eq
is_name [] = true
is_name (ch ∷ s) = symbol_eq (char_type ch) text && is_name s

exponent-text : (ch : ℕ) → is_exponent ch ≡ true → char_type ch ≡ text
unfolding char_type
exponent-text ch h = elim (Bool-cases (ch == b'E')) [
  | inl upper ↦ rw (==→eq ch b'E' upper) refl
  | inr other ↦ rw (==→eq ch b'e' (rw other at h)) refl
]

not_exponent : (ch : ℕ) → (char_type ch ≡ text → ⊥) → is_exponent ch ≡ false
not_exponent ch h = elim (Bool-cases (is_exponent ch)) [
  | inl exponent ↦ absurd (h (exponent-text ch exponent))
  | inr other ↦ other
]

not_text : (a : Symbol) → stops a ≡ true → a ≡ text → ⊥
unfolding stops
not_text text h e = cc
not_text _ h e = cc

and-left : (a b : Bool) → (a && b) ≡ true → a ≡ true
and-left true b h = refl
and-left false b h = h

and-right : (a b : Bool) → (a && b) ≡ true → b ≡ true
and-right true b h = h
and-right false b h = cc

pub and-false : (b : Bool) → (b && false) ≡ false
and-false true = refl
and-false false = refl

stop_tests :
    (a : Symbol)
    → stops a ≡ true
    → (symbol_eq a digit ≡ false)
      × (symbol_eq a decimal ≡ false)
      × (symbol_eq a text ≡ false)
      × (symbol_eq a invalid ≡ false)
unfolding stops symbol_eq
stop_tests addop h = (refl, refl, refl, refl)
stop_tests multop h = (refl, refl, refl, refl)
stop_tests expop h = (refl, refl, refl, refl)
stop_tests lparen h = (refl, refl, refl, refl)
stop_tests rparen h = (refl, refl, refl, refl)
stop_tests argsep h = (refl, refl, refl, refl)
stop_tests _ h = absurd cc

number_char-stop :
    (has_decimal : Bool) (ch : ℕ)
    → stops (char_type ch) ≡ true
    → number_char has_decimal false ch ≡ false
unfolding number_char
number_char-stop has_decimal ch h =
    let tests = stop_tests (char_type ch) h in
    rw (tests.0, tests.1, not_exponent ch (not_text (char_type ch) h))
      (and-false (ch == b'+' || ch == b'-'))

numeral_tests :
    (a : Symbol) (has_decimal : Bool)
    → numeral_char a has_decimal ≡ true
    → ((symbol_eq a digit || (symbol_eq a decimal && not has_decimal)) ≡ true)
      × (symbol_eq a invalid ≡ false)
      × (a ≡ text → ⊥)
unfolding symbol_eq
numeral_tests digit has_decimal h = (refl, refl, λ e. cc)
numeral_tests decimal has_decimal h = (h, refl, λ e. cc)
numeral_tests _ has_decimal h = absurd cc

or-left : (a b c : Bool) → (a || b) ≡ true → (a || (b || c)) ≡ true
or-left true b c h = refl
or-left false true c h = refl
or-left false false c h = cc

number_char-numeral :
    (has_decimal : Bool) (ch : ℕ)
    → numeral_char (char_type ch) has_decimal ≡ true
    → number_char has_decimal false ch ≡ true
unfolding number_char
number_char-numeral has_decimal ch h =
    or-left (symbol_eq (char_type ch) digit) (symbol_eq (char_type ch) decimal && not has_decimal)
      ((is_exponent ch && true) || ((ch == b'+' || ch == b'-') && false))
      ((numeral_tests (char_type ch) has_decimal h).0)

leb-true : (a b : ℕ) → a ≤ b → leb a b ≡ true
leb-true a b h = ground arith

-- The scan of a number takes its numeral.
scan_number-numeral :
    (m len : ℕ) (has_decimal : Bool) (tk rest : Str)
    → is_numeral has_decimal tk ≡ true
    → len + length tk ≤ suc m
    → Stop rest
    → scan_number m len has_decimal false (tk ++ rest) ≡ (tk, rest)
unfolding scan_number is_numeral
scan_number-numeral m len has_decimal [] [] h room stop = refl
scan_number-numeral m len has_decimal [] (ch ∷ rest) h room stop =
    rw (number_char-stop has_decimal ch stop, and-false (leb len m)) refl
scan_number-numeral m len has_decimal (ch ∷ tk) rest h room stop =
    let this =
      and-left (numeral_char (char_type ch) has_decimal)
        (is_numeral (has_decimal || is_decimal ch) tk) h in
    let others =
      and-right (numeral_char (char_type ch) has_decimal)
        (is_numeral (has_decimal || is_decimal ch) tk) h in
    let tests = numeral_tests (char_type ch) has_decimal this in
    rw
      (
        number_char-numeral has_decimal ch this,
        leb-true len m (omega arith),
        not_exponent ch (tests.2),
        and-false (not (is_decimal ch)),
        scan_number-numeral m (suc len) (has_decimal || is_decimal ch) tk rest others (omega arith)
            stop,
      )
      refl

scan_text-name :
    (m len : ℕ) (tk rest : Str)
    → is_name tk ≡ true
    → len + length tk ≤ suc m
    → Stop rest
    → scan_text m len (tk ++ rest) ≡ (tk, rest)
unfolding scan_text is_name
scan_text-name m len [] [] h room stop = refl
scan_text-name m len [] (ch ∷ rest) h room stop = rw ((stop_tests (char_type ch) stop).2) refl
scan_text-name m len (ch ∷ tk) rest h room stop =
    rw
      (
        and-left (symbol_eq (char_type ch) text) (is_name tk) h,
        leb-true len m (omega arith),
        scan_text-name m (suc len) tk rest
            (and-right (symbol_eq (char_type ch) text) (is_name tk) h) (omega arith) stop,
      )
      refl

-- The whole token of a number that starts with a digit, and of a name.
pub number_token-numeral :
    (m ch : ℕ) (tk rest : Str)
    → char_type ch ≡ digit
    → is_numeral false tk ≡ true
    → suc (length tk) ≤ suc m
    → Stop rest
    → number_token m ch (tk ++ rest) ≡ (ch ∷ tk, rest)
unfolding number_token symbol_eq
number_token-numeral m ch tk rest e h room stop =
    rw (e, scan_number-numeral m 1 false tk rest h (omega arith) stop) refl

pub text_token-name :
    (m ch : ℕ) (tk rest : Str)
    → is_name tk ≡ true
    → suc (length tk) ≤ suc m
    → Stop rest
    → text_token m ch (tk ++ rest) ≡ (ch ∷ tk, rest)
unfolding text_token
text_token-name m ch tk rest h room stop = rw (scan_text-name m 1 tk rest h (omega arith) stop) refl
