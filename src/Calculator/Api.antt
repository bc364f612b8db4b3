-- ===== src/Calculator/Api.antt =====
-- `calculator_calc` of src/calculator.c. Messages are left out; `atof` is `strtod` without an end
-- pointer.
pub mod Evaluate
use likwid_bench.Base.{
  ℕ, Bool, true, false, not, ◌&&◌, Option, none, some, List, [], ◌∷◌, length, if◌then◌else◌, Result,
  ok, err,
}
use likwid_bench.Base.Int.{ℤ, pos, negsuc}
use likwid_bench.Base.Strings.{Str}
use likwid_bench.Calculator.Chars.{text, Token, char_type, is_function, symbol_eq, first}
use likwid_bench.Calculator.Number.{Double, Preferences, num2str}
use likwid_bench.Calculator.Func.{Outcome, done, fault, crash, hang}
use likwid_bench.Calculator.Machine.{postfix}
use likwid_bench.Calculator.Lexer.{tokenize}
use likwid_bench.Calculator.Commands.{Executed, exec_command}

-- -EFAULT
abbrev pub efault_code : ℤ
efault_code = negsuc 13

-- What the call returns, the number that it writes to `*result`, if any, and the preferences
-- behind it.
abbrev pub Returned : Type 0 → Type 0
Returned Num = ℤ × Option Num × Preferences

-- `prefs.allow_commands && type(*formula) == text && !isFunction(formula)`
unfoldable pub is_command : Preferences → Str → Bool
unfolding char_type symbol_eq is_function
is_command prefs formula =
    prefs.allow_commands
    && (symbol_eq (char_type (first formula)) text && not (is_function formula))

-- `fuel` bounds the loop of `num2Str`; without enough of it the call counts as one that does not
-- return.
module _ (d : Double) (fuel : ℕ) (prefs : Preferences) where
  open d use {Num, strtod, nan}

  -- Behind `postfix`: the top of the stack, or NAN.
  top_or_nan : List Token → Num
  top_or_nan [] = nan
  top_or_nan (tk ∷ stack) = strtod tk

  abbrev single_result : List Token → Option (Returned Num)
  single_result (tk ∷ []) = some (pos 0, some (strtod tk), prefs)
  single_result stack = some (efault_code, some nan, prefs)

  unfoldable pub evaluated : Outcome (List Token) → Option (Returned Num)
  unfolding top_or_nan
  evaluated (done stack) = single_result stack
  evaluated (fault stack) = some (efault_code, some (top_or_nan stack), prefs)
  evaluated crash = none
  evaluated hang = none

  unfoldable pub calc_tokens : Option (Result (List Token)) → Option (Returned Num)
  unfolding evaluated postfix num2str
  calc_tokens none = none
  calc_tokens (some (err e)) = some (efault_code, some nan, prefs)
  calc_tokens (some (ok tokens)) =
      evaluated (postfix d prefs.degrees (num2str d fuel prefs) (length tokens) tokens)

  abbrev executed : Executed → Option (Returned Num)
  executed (recognized, reply, prefs') = some (if recognized then pos 1 else pos 0, none, prefs')

  -- `calculator_calc`; `none` is a crash or a call that does not return.
  unfoldable pub calc : Str → Option (Returned Num)
  unfolding is_command tokenize exec_command calc_tokens
  calc [] = some (negsuc 0, none, prefs)
  calc (ch ∷ s) =
      if is_command prefs (ch ∷ s)
      then executed (exec_command prefs (ch ∷ s))
      else calc_tokens (tokenize prefs.max_token_length (ch ∷ s))
