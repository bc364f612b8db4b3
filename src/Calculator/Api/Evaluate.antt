-- ===== src/Calculator/Api/Evaluate.antt =====
-- `calculator_calc` of src/calculator.c from the text of a formula to its value.
use likwid_bench.Base.{
  ℕ, zero, suc, ◌≢◌, ◌≤◌, ◌≡◌, refl, ap, false, Option, none, some, List, [], ◌∷◌, length, ok,
}
use likwid_bench.Base.Int.{ℤ, pos, negsuc}
use likwid_bench.Base.Strings.{Str}
use likwid_bench.Calculator.Chars.{Token}
use likwid_bench.Calculator.Number.{
  Double, Preferences, print_at, initial_precision, num2str_at, num2str,
}
use likwid_bench.Calculator.Func.{Outcome, returning, is_separator}
use likwid_bench.Calculator.Machine.{postfix}
use likwid_bench.Calculator.Formula.{Sum, sum_tokens}
use likwid_bench.Calculator.Value.{sum_value}
use likwid_bench.Calculator.Correct.{Computes, postfix-sum_value}
use likwid_bench.Calculator.Lexer.{tokenize}
use likwid_bench.Calculator.Lexer.Lexes.{concat}
use likwid_bench.Calculator.Lexer.Roundtrip.{SumNumerals, tokenize-concat}
use likwid_bench.Calculator.Api.{Returned, efault_code, evaluated, calc_tokens, calc}

-- What the call returns for a formula of a given value.
abbrev pub Evaluates : (d : Double) → Preferences → Option Token → Option (Returned d.Num) → Type 0
Evaluates d prefs (some v) r = r ≡ some (pos 0, some (d.strtod v), prefs)
Evaluates d prefs none r = (x : d.Num) × (r ≡ some (efault_code, some x, prefs))

Computes-Evaluates :
    (d : Double) (fuel : ℕ) (prefs : Preferences) (value_of : Option Token)
    (m : Outcome (List Token))
    → Computes value_of m
    → Evaluates d prefs value_of (evaluated d fuel prefs m)
unfolding evaluated
Computes-Evaluates d fuel prefs none m (s, e) = (_, ap (evaluated d fuel prefs) e)
Computes-Evaluates d fuel prefs (some v) m e = ap (evaluated d fuel prefs) e

tokenize-nil : (m : ℕ) (tokens : List Token) → tokenize m [] ≡ some (ok tokens) → ⊥
unfolding tokenize
tokenize-nil m tokens e = cc

calc_text :
    (d : Double) (fuel : ℕ) (prefs : Preferences) (s : Str) (tokens : List Token)
    → prefs.allow_commands ≡ false
    → tokenize prefs.max_token_length s ≡ some (ok tokens)
    → calc d fuel prefs s
      ≡ evaluated d fuel prefs
          (postfix d prefs.degrees (num2str d fuel prefs) (length tokens) tokens)
unfolding calc calc_tokens
calc_text d fuel prefs [] tokens closed e = absurd (tokenize-nil prefs.max_token_length tokens e)
calc_text d fuel prefs (ch ∷ s) tokens closed e = rw (closed, e) refl

evaluates_lem :
    (d : Double) (fuel : ℕ) (prefs : Preferences) (print : d.Num → Token)
    (returns : (x : d.Num) → num2str d fuel prefs x ≡ some (print x))
    (plain : (x : d.Num) → is_separator (print x) ≡ false) (e : Sum)
    → prefs.allow_commands ≡ false
    → 5 ≤ prefs.max_token_length
    → SumNumerals prefs.max_token_length e
    → Evaluates d prefs (sum_value d print e) (calc d fuel prefs (concat (sum_tokens e)))
evaluates_lem d fuel prefs print returns plain e closed long numerals =
    let printing : num2str d fuel prefs ≡ returning print = λ i x. returns x i in
    let run : Computes (sum_value d print e)
        (postfix d prefs.degrees (num2str d fuel prefs) (length (sum_tokens e)) (sum_tokens e)) =
      rw printing (postfix-sum_value d prefs.degrees print plain e) in
    rw
      (calc_text d fuel prefs (concat (sum_tokens e)) (sum_tokens e) closed
        (tokenize-concat prefs.max_token_length e long numerals))
      (Computes-Evaluates d fuel prefs (sum_value d print e)
        (postfix d prefs.degrees (num2str d fuel prefs) (length (sum_tokens e)) (sum_tokens e)) run)

-- The text of a number at the precision of the preferences, at most MAXPRECISION.
abbrev pub fixed_text : (d : Double) → Preferences → d.Num → Token
fixed_text d prefs = print_at d prefs (pos (initial_precision d prefs.precision))

num2str_at-fixed :
    (d : Double) (fuel : ℕ) (prefs : Preferences) (mode : ℤ) (x : d.Num)
    → mode ≢ negsuc 0
    → num2str_at d fuel prefs mode x ≡ some (print_at d prefs (pos (initial_precision d mode)) x)
unfolding num2str_at
num2str_at-fixed d fuel prefs (pos n) x h = refl
num2str_at-fixed d fuel prefs (negsuc zero) x h = absurd (h refl)
num2str_at-fixed d fuel prefs (negsuc (suc n)) x h = refl

num2str-fixed :
    (d : Double) (fuel : ℕ) (prefs : Preferences)
    → prefs.precision ≢ negsuc 0
    → (x : d.Num) → num2str d fuel prefs x ≡ some (fixed_text d prefs x)
unfolding num2str
num2str-fixed d fuel prefs h x = num2str_at-fixed d fuel prefs prefs.precision x h

-- calculator_calc, with commands not allowed and a precision other than AUTOPRECISION, on the text of
-- any formula of the grammar whose numerals fit the maximal token length, which is 5 at least,
-- returns 0 and writes the formula's value by recursion on its syntax tree, in which num2Str prints
-- each intermediate number at that precision; where the tree divides by zero, it returns -EFAULT. The
-- condition is that a printed number is not the separator "|".
pub calc-sum_value :
    (d : Double) (fuel : ℕ) (prefs : Preferences)
    (plain : (x : d.Num) → is_separator (fixed_text d prefs x) ≡ false) (e : Sum)
    → prefs.precision ≢ negsuc 0
    → prefs.allow_commands ≡ false
    → 5 ≤ prefs.max_token_length
    → SumNumerals prefs.max_token_length e
    → Evaluates d prefs
        (sum_value d (fixed_text d prefs) e)
        (calc d fuel prefs (concat (sum_tokens e)))
calc-sum_value d fuel prefs plain e fixed =
    evaluates_lem d fuel prefs (fixed_text d prefs) (num2str-fixed d fuel prefs fixed) plain e
