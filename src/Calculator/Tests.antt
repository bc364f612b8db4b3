-- ===== src/Calculator/Tests.antt =====
-- The calculator of src/calculator.c run on concrete formulas, over a type of natural numbers that
-- are printed with a leading zero.
use likwid_bench.Base.{
  ℕ, zero, suc, ◌+◌, ◌-◌, ◌*◌, ◌/◌, ◌%◌, ◌^◌, ◌≤◌, ◌≡◌, ◌≢◌, refl, true, false, Option, none, some,
  List, [], ◌∷◌, length, ltb, ◌==◌, if◌then◌else◌, ok, arith,
}
use likwid_bench.Base.Int.{pos, negsuc}
use likwid_bench.Base.Strings.{Str, str, strcmp_eq}
use likwid_bench.Calculator.Chars.{Token, token_type, char_type, symbol_eq, top_type, precedence}
use likwid_bench.Calculator.Number.{Double, Preferences}
use likwid_bench.Calculator.Func.{returning, done, fault, is_separator, do_func}
use likwid_bench.Calculator.Machine.{postfix}
use likwid_bench.Calculator.Formula.{
  plus, minus, times, over, min, median, Sum, Atom, prod, add, power, mul, atom, num, paren, call,
  arg, more, sum_tokens,
}
use likwid_bench.Calculator.Value.{sum_value, aggregate, insert}
use likwid_bench.Calculator.Correct.{postfix-sum_value}
use likwid_bench.Calculator.Lexer.{buffer_size, tokenize}
use likwid_bench.Calculator.Lexer.Total.{tokenize-Accepted, Accepted}
use likwid_bench.Calculator.Lexer.Print.{is_numeral}
use likwid_bench.Calculator.Lexer.Lexes.{concat}
use likwid_bench.Calculator.Lexer.Roundtrip.{SumNumerals, tokenize-concat, tokenize-longest}
use likwid_bench.Calculator.Ranks.{precedence-sign}
use likwid_bench.Calculator.Aggregates.{Free, do_func-aggregate}
use likwid_bench.Calculator.Number.{num2str, num2str_at, trim_zeros}
use likwid_bench.Calculator.Settings.{init}
use likwid_bench.Calculator.Settings.Valid.{Valid, precision, token_length, set_all, set_all-Valid}
use likwid_bench.Calculator.Commands.{str_split, exec_command, auto, precision as shown_precision}
use likwid_bench.Calculator.Commands.Sets.{fixed_precision, exec_command-set}
use likwid_bench.Calculator.Commands.Split.{str_split-join}
use likwid_bench.Calculator.Api.{calc, efault_code}
use likwid_bench.Calculator.Api.Evaluate.{fixed_text, calc-sum_value}

-- The decimal digits of `n` in front of `acc`, on fuel.
decimal : ℕ → ℕ → Str → Str
decimal zero n acc = acc
decimal (suc fuel) n acc =
    let longer = decimal fuel (n / 10) ((b'0' + n % 10) ∷ acc) in
    if ltb n 10 then (b'0' + n) ∷ acc else longer

read : ℕ → Str → ℕ
read acc [] = acc
read acc (ch ∷ s) = read (10 * acc + (ch - b'0')) s

text : ℕ → Str
unfolding decimal
text n = b'0' ∷ decimal 20 n []

abbrev naturals : Double
naturals = record {
  Num = ℕ;
  strtod = read 0;
  printf_f = λ p n. text n;
  of_count = λ n. n;
  to_int = λ n. n;
  add = λ a b. a + b;
  sub = λ a b. a - b;
  mul = λ a b. a * b;
  div = λ a b. a / b;
  pow = λ a b. a ^ b;
  less = ltb;
  is_zero = λ a. a == 0;
  libm = λ f n. n;
  nan = 0;
  inf = 0;
  pi = 3;
}

text_plain : (n : ℕ) → is_separator (text n) ≡ false
unfolding is_separator strcmp_eq text
text_plain n = refl

two : Atom
unfolding token_type
two = num (str "2") refl

three : Atom
unfolding token_type
three = num (str "3") refl

sum_of : Atom → Sum
sum_of a = prod (power (atom a))

-- 2*(3+2)-min(3,2)
formula : Sum
unfolding two three sum_of
formula =
    add
      (prod
        (mul (power (atom two)) times (atom (paren (add (sum_of three) plus (power (atom two)))))))
      minus (power (atom (call min (more (arg (sum_of three)) (sum_of two)))))

formula_text : concat (sum_tokens formula) ≡ str "2*(3+2)-min(3,2)"
unfolding sum_tokens formula two three sum_of
formula_text = refl

-- 3/(2-2)
by_zero : Sum
unfolding two three sum_of
by_zero =
    prod (mul (power (atom three)) over (atom (paren (add (sum_of two) minus (power (atom two))))))

postfix-sum_value_example :
    postfix naturals false (returning text) (length (sum_tokens formula)) (sum_tokens formula)
    ≡ done (str "08" ∷ [])
unfolding sum_value aggregate formula two three sum_of text decimal read
postfix-sum_value_example = postfix-sum_value naturals false text text_plain formula

prefs : Preferences
prefs = record {
  tokens = false;
  postfix = false;
  errors = true;
  degrees = false;
  precision = pos 5;
  max_token_length = 512;
  allow_commands = false;
}

formula-SumNumerals : SumNumerals 512 formula
unfolding formula two three sum_of SumNumerals is_numeral char_type
formula-SumNumerals = (
  ((refl, refl, omega arith), ((refl, refl, omega arith), (refl, refl, omega arith))),
  ((refl, refl, omega arith), (refl, refl, omega arith)),
)

tokenize-concat_example :
    tokenize 512 (concat (sum_tokens formula)) ≡ some (ok (sum_tokens formula))
tokenize-concat_example = tokenize-concat 512 formula (omega arith) formula-SumNumerals

fixed_precision_five : prefs.precision ≢ negsuc 0
unfolding prefs
fixed_precision_five e = cc

printed_plain : (n : ℕ) → is_separator (fixed_text naturals prefs n) ≡ false
unfolding is_separator strcmp_eq text prefs
printed_plain n = refl

calc-sum_value_example :
    calc naturals 0 prefs (concat (sum_tokens formula)) ≡ some (pos 0, some 8, prefs)
unfolding sum_value aggregate formula two three sum_of text decimal read prefs
calc-sum_value_example =
    calc-sum_value naturals 0 prefs printed_plain formula fixed_precision_five refl (omega arith)
      formula-SumNumerals

-- The other branch: a division by zero.
by_zero_fault :
    (s : List Token) × (postfix naturals false (returning text) 7 (sum_tokens by_zero) ≡ fault s)
unfolding postfix sum_tokens by_zero two three sum_of symbol_eq top_type read text
by_zero_fault = (_, refl)

tokenize-Accepted_example : Accepted 3 (tokenize 2 (str "1234+5"))
tokenize-Accepted_example = tokenize-Accepted 2 (str "1234+5")

tokens_split : tokenize 2 (str "1234+5") ≡ some (ok (str "123" ∷ str "4" ∷ str "+" ∷ str "5" ∷ []))
unfolding tokenize
tokens_split = refl

signs_and_points :
    tokenize 512 (str "-1.5e-3*(2-min(3,.5))")
    ≡ some (
        ok (
          str "-1.5e-3"
          ∷ str "*"
          ∷ str "("
          ∷ str "2"
          ∷ str "-"
          ∷ str "min"
          ∷ str "("
          ∷ str "3"
          ∷ str ","
          ∷ str "0.5"
          ∷ str ")"
          ∷ str ")"
          ∷ []))
unfolding tokenize
signs_and_points = refl

-- The closing parenthesis in front of the opening one is not refused: `)1(` has the value 1.
swapped_parens : calc naturals 0 prefs (str ")1(") ≡ some (pos 0, some 1, prefs)
unfolding calc prefs read
swapped_parens = refl

-- A function name without parentheses: the value below it is popped, and NULL reaches `strcmp`.
no_parens : calc naturals 0 prefs (str "sin 5") ≡ none
unfolding calc prefs read
no_parens = refl

-- A function of one argument behind another operand is refused.
one_plus_sin : calc naturals 0 prefs (str "1+sin(5)") ≡ some (efault_code, some 0, prefs)
unfolding calc prefs read precedence
one_plus_sin = refl

tokenize-longest_example :
    (tokenize 3 (str "7.25") ≡ some (ok (str "7.25" ∷ []))) × (buffer_size 3 ≤ length (str "7.25"))
unfolding is_numeral char_type
tokenize-longest_example = tokenize-longest 3 (str "7.25") (refl, refl, omega arith) refl

precedence-sign_example : precedence (str "-") (some (str "*")) ≡ negsuc 0
unfolding token_type
precedence-sign_example = precedence-sign (str "-") (str "*") (omega arith) (omega arith)

four_nine_two : Free (str "9" ∷ str "2" ∷ [])
unfolding is_separator
four_nine_two = (refl, (refl, tt))

lower_of_three : aggregate naturals median (str "4") (str "9" ∷ str "2" ∷ []) ≡ some 4
unfolding aggregate insert read
lower_of_three = refl

do_func-aggregate_example :
    do_func naturals false
      (returning text)
      9
      (str "4" ∷ str "9" ∷ str "2" ∷ str "|" ∷ str "1" ∷ [])
      (str "median")
    ≡ done (text 4 ∷ str "1" ∷ [])
unfolding read
do_func-aggregate_example =
    do_func-aggregate naturals false text 9 median (str "4") (str "9" ∷ str "2" ∷ []) (str "1" ∷ [])
      4 four_nine_two (omega arith) lower_of_three

str_split-join_example :
    str_split (str "set mode degrees") b' ' ≡ str "set" ∷ str "mode" ∷ str "degrees" ∷ []
str_split-join_example = str_split-join b' ' (str "set" ∷ str "mode" ∷ str "degrees" ∷ []) (
  (refl, (refl, (refl, tt))),
  (
    (refl, (refl, (refl, (refl, tt)))),
    ((refl, (refl, (refl, (refl, (refl, (refl, (refl, tt))))))), tt),
  ),
)

set_degrees :
    exec_command prefs (str "set mode degrees") ≡ (true, none, record prefs { degrees = true })
unfolding exec_command prefs
set_degrees = refl

-- A command may set a precision that `calculator_setprecision` refuses.
set_fifty :
    exec_command prefs (str "set precision 50") ≡ (true, none, record prefs { precision = pos 50 })
unfolding exec_command prefs
set_fifty = refl

-- One above INT_MAX wraps around.
set_beyond :
    exec_command prefs (str "set precision 2147483648")
    ≡ (true, none, record prefs { precision = negsuc 2147483647 })
unfolding exec_command prefs
set_beyond = refl

-- The precision 0 is shown as `auto`.
get_zero :
    exec_command (record prefs { precision = pos 0 }) (str "get precision")
    ≡ (true, some auto, record prefs { precision = pos 0 })
unfolding exec_command prefs
get_zero = refl

-- With commands allowed, a formula that starts with a function is taken for a command, and no result
-- is written.
sin_command :
    calc naturals 0 (record prefs { allow_commands = true }) (str "sin(5)")
    ≡ some (pos 0, none, record prefs { allow_commands = true })
unfolding calc prefs
sin_command = refl

-- With the automatic precision the sum of 5 and 5 is never printed, and the call does not return.
five_plus_five : calc naturals 1000 (record prefs { precision = negsuc 0 }) (str "5+5") ≡ none
unfolding calc prefs read text decimal num2str num2str_at trim_zeros
five_plus_five = refl

set_all-Valid_example :
    Valid (set_all (init prefs) (precision (pos 99) ∷ token_length (pos 7) ∷ []))
set_all-Valid_example = set_all-Valid prefs (precision (pos 99) ∷ token_length (pos 7) ∷ [])

-- A type whose only number prints as "1.50" above the precision 1 and as "1.5" up to it.
half_text : Option ℕ → ℕ → Str
half_text none n = str "1.500000"
half_text (some p) n = if ltb 1 p then str "1.50" else str "1.5"

abbrev halves : Double
halves = record naturals { printf_f = half_text }

half_printed : num2str halves 22 (record prefs { precision = negsuc 0 }) 0 ≡ some (str "1.5")
unfolding half_text prefs num2str num2str_at trim_zeros
half_printed = refl

ten_unprinted : num2str naturals 1000 (record prefs { precision = negsuc 0 }) 10 ≡ none
unfolding prefs text decimal num2str num2str_at trim_zeros
ten_unprinted = refl

exec_command-set_example :
    (exec_command prefs (str "set precision 12")
      ≡ (true, none, record prefs { precision = pos 12 }))
    × (exec_command (record prefs { precision = pos 12 }) (str "get precision")
        ≡ (true, some (shown_precision (pos 12)), record prefs { precision = pos 12 }))
exec_command-set_example =
    exec_command-set prefs (fixed_precision 1 (2 ∷ []))
      ((omega arith, (omega arith, tt)), omega arith)
