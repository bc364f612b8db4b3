-- ===== src/Calculator/Lexer/Roundtrip.antt =====
-- `tokenize` of src/calculator.c on the text of a formula, and on the longest token.
use likwid_bench.Base.{
  ℕ, ◌+◌, ◌≤◌, ◌≡◌, refl, sym, ◌∙◌, ap, Option, none, some, List, [], ◌∷◌, ◌++◌, append-nil, length,
  arith, ok,
}
use likwid_bench.Base.Strings.{Str, str}
use likwid_bench.Calculator.Chars.{Token, char_type}
use likwid_bench.Calculator.Lexer.{buffer_size, Counts, Lexed, tokenize, checked, check_all, lex}
use likwid_bench.Calculator.Lexer.Total.{lexed}
use likwid_bench.Calculator.Lexer.Print.{is_name}
use likwid_bench.Calculator.Formula.{
  AddOp, MulOp, plus, minus, times, over, modulo, Aggregate, min, max, sum, avg, mean, median, var,
  Sum, Prod, Power, Atom, Args, prod, add, power, mul, atom, raise, num, paren, call, arg, more,
  add_token, mul_token, aggregate_token, sum_tokens, prod_tokens, power_tokens, atom_tokens,
  args_tokens,
}
use likwid_bench.Calculator.Lexer.Lexes.{
  concat, Grows, Lexes, Lexes-infix, Lexes-paren, Numeral, Lexes-number, Lexes-name,
}

-- The formulas whose numbers are numerals.
unfoldable mutual
  pub SumNumerals : ℕ → Sum → Type 0
  SumNumerals m (prod p) = ProdNumerals m p
  SumNumerals m (add s op p) = SumNumerals m s × ProdNumerals m p

  ProdNumerals : ℕ → Prod → Type 0
  ProdNumerals m (power f) = PowerNumerals m f
  ProdNumerals m (mul p op f) = ProdNumerals m p × PowerNumerals m f

  PowerNumerals : ℕ → Power → Type 0
  PowerNumerals m (atom a) = AtomNumerals m a
  PowerNumerals m (raise a f) = AtomNumerals m a × PowerNumerals m f

  AtomNumerals : ℕ → Atom → Type 0
  AtomNumerals m (num tk is_value) = Numeral m tk
  AtomNumerals m (paren s) = SumNumerals m s
  AtomNumerals m (call f args) = ArgsNumerals m args

  ArgsNumerals : ℕ → Args → Type 0
  ArgsNumerals m (arg s) = SumNumerals m s
  ArgsNumerals m (more args s) = ArgsNumerals m args × SumNumerals m s

Lexes-add :
    (m : ℕ) (op : AddOp) (ts us : List Token)
    → Lexes m ts
    → Lexes m us
    → Lexes m (ts ++ (add_token op ∷ us))
unfolding char_type
Lexes-add m plus ts us h k = Lexes-infix m ts us b'+' refl h k
Lexes-add m minus ts us h k = Lexes-infix m ts us b'-' refl h k

Lexes-mul :
    (m : ℕ) (op : MulOp) (ts us : List Token)
    → Lexes m ts
    → Lexes m us
    → Lexes m (ts ++ (mul_token op ∷ us))
unfolding char_type
Lexes-mul m times ts us h k = Lexes-infix m ts us b'*' refl h k
Lexes-mul m over ts us h k = Lexes-infix m ts us b'/' refl h k
Lexes-mul m modulo ts us h k = Lexes-infix m ts us b'%' refl h k

Lexes-call :
    (m : ℕ) (f : Aggregate) (ts : List Token)
    → 5 ≤ m
    → Lexes m (str "(" ∷ ts)
    → Lexes m (aggregate_token f ∷ (str "(" ∷ ts))
unfolding char_type is_name
Lexes-call m min ts le h = Lexes-name m b'm' (str "in") ts refl refl (omega arith) h
Lexes-call m max ts le h = Lexes-name m b'm' (str "ax") ts refl refl (omega arith) h
Lexes-call m sum ts le h = Lexes-name m b's' (str "um") ts refl refl (omega arith) h
Lexes-call m avg ts le h = Lexes-name m b'a' (str "vg") ts refl refl (omega arith) h
Lexes-call m mean ts le h = Lexes-name m b'm' (str "ean") ts refl refl (omega arith) h
Lexes-call m median ts le h = Lexes-name m b'm' (str "edian") ts refl refl (omega arith) h
Lexes-call m var ts le h = Lexes-name m b'v' (str "ar") ts refl refl (omega arith) h

module _ (m : ℕ) (long : 5 ≤ m) where
  mutual
    unfolding sum_tokens prod_tokens power_tokens atom_tokens args_tokens char_type SumNumerals

    sum_Lexes : (e : Sum) → SumNumerals m e → Lexes m (sum_tokens e)
    sum_Lexes (prod p) h = prod_Lexes p h
    sum_Lexes (add s op p) (h, k) =
        Lexes-add m op (sum_tokens s) (prod_tokens p) (sum_Lexes s h) (prod_Lexes p k)

    prod_Lexes : (e : Prod) → ProdNumerals m e → Lexes m (prod_tokens e)
    prod_Lexes (power f) h = power_Lexes f h
    prod_Lexes (mul p op f) (h, k) =
        Lexes-mul m op (prod_tokens p) (power_tokens f) (prod_Lexes p h) (power_Lexes f k)

    power_Lexes : (e : Power) → PowerNumerals m e → Lexes m (power_tokens e)
    power_Lexes (atom a) h = atom_Lexes a h
    power_Lexes (raise a f) (h, k) =
        Lexes-infix m (atom_tokens a) (power_tokens f) b'^' refl (atom_Lexes a h) (power_Lexes f k)

    atom_Lexes : (e : Atom) → AtomNumerals m e → Lexes m (atom_tokens e)
    atom_Lexes (num tk is_value) h = Lexes-number m tk h
    atom_Lexes (paren s) h = Lexes-paren m (sum_tokens s) (sum_Lexes s h)
    atom_Lexes (call f args) h =
        Lexes-call m f (args_tokens args ++ (str ")" ∷ [])) long
          (Lexes-paren m (args_tokens args) (args_Lexes args h))

    args_Lexes : (e : Args) → ArgsNumerals m e → Lexes m (args_tokens e)
    args_Lexes (arg s) h = sum_Lexes s h
    args_Lexes (more args s) (h, k) =
        Lexes-infix m (args_tokens args) (sum_tokens s) b',' refl (args_Lexes args h)
          (sum_Lexes s k)

checked-Grows :
    (ts : List Token) (counts : Counts)
    → Grows (length ts) (0, 0, 0) counts
    → checked (ts, counts) ≡ ok ts
checked-Grows ts (l, r, o) (balanced, fewer) = ground arith

tokenize-lexed :
    (m : ℕ) (s : Str) → 1 ≤ length s → tokenize m s ≡ check_all (lexed m none (0, 0, 0) s)
unfolding tokenize
tokenize-lexed m [] h = absurd (omega arith)
tokenize-lexed m (ch ∷ s) h = refl

abbrev token_count : Option Lexed → ℕ
token_count none = 0
token_count (some (tokens, counts)) = length tokens

tokenize-from :
    (m : ℕ) (s : Str) (ts : List Token) (counts : Counts)
    → Grows (length ts) (0, 0, 0) counts
    → lexed m none (0, 0, 0) s ≡ some (ts, counts)
    → tokenize m s ≡ some (ok ts)
unfolding tokenize lex
tokenize-from m [] ts (l, r, o) (balanced, fewer) e = absurd (omega (arith, ap token_count e))
tokenize-from m (ch ∷ s) ts counts grows e =
    ap check_all e ∙ ap some (checked-Grows ts counts grows)

-- tokenize, on the text of any formula of the grammar, written without spaces and with
-- numerals that fit the maximal token length (5 at least, for the longest name), returns the formula's tokens.
pub tokenize-concat :
    (m : ℕ) (e : Sum)
    → 5 ≤ m
    → SumNumerals m e
    → tokenize m (concat (sum_tokens e)) ≡ some (ok (sum_tokens e))
unfolding Lexes lex
tokenize-concat m e long h =
    let ts = sum_tokens e in
    let (last, counts, operand, grows, eq) = sum_Lexes m long e h none (0, 0, 0) [] tt in
    tokenize-from m (concat ts) ts counts grows (
      ap (lexed m none (0, 0, 0)) (sym (append-nil (concat ts)))
      ∙ eq
      ∙ ap (λ us. some (us, counts)) (append-nil ts))

-- Of any numeral (a digit, then digits with one decimal point at most) with one character more than
-- the maximal token length, tokenize makes one token of all its characters. Its length reaches the
-- size of the buffer in which it is built, so that the NUL behind it lies outside.
pub tokenize-longest :
    (m : ℕ) (tk : Token)
    → Numeral m tk
    → length tk ≡ m + 1
    → (tokenize m tk ≡ some (ok (tk ∷ []))) × (buffer_size m ≤ length tk)
unfolding Lexes lex
tokenize-longest m tk numeral size =
    let (last, counts, operand, grows, eq) = Lexes-number m tk numeral none (0, 0, 0) [] tt in
    (
      tokenize-from m tk (tk ∷ []) counts grows (
          ap (lexed m none (0, 0, 0)) (sym (append-nil (tk ++ []) ∙ append-nil tk))
          ∙ eq
          ∙ ap (λ us. some (us, counts)) (append-nil (tk ∷ []))),
      omega (arith, size),
    )
