-- ===== src/Calculator/Number.antt =====
-- The numbers of src/calculator.c and their text: what the code uses of the C type `double`, of
-- libm and of the conversions of stdlib.h and stdio.h, as an interface, and `num2Str` over it.
pub mod Printing
use likwid_bench.Base.{
  ℕ, zero, suc, ◌-◌, Bool, Option, none, some, ltb, ◌==◌, if◌then◌else◌, length, get_or, take,
}
use likwid_bench.Base.Int.{ℤ, pos, negsuc}
use likwid_bench.Base.Strings.{Str}

pub data Libm : Type 0 where
  fabs floor ceil sin cos tan asin acos atan sqrt cbrt log exp : Libm

-- IEEE arithmetic is not defined here: the theorems hold for every such type. `printf_f p x` is the
-- text of "%.*f" at precision `p`, `none` for a negative precision; `to_int` is `(int)x`, as a double.
pub record Double : Type 1 where
  pub Num : Type 0
  pub strtod : Str → Num
  pub printf_f : Option ℕ → Num → Str
  pub of_count : ℕ → Num
  pub to_int : Num → Num
  pub add : Num → Num → Num
  pub sub : Num → Num → Num
  pub mul : Num → Num → Num
  pub div : Num → Num → Num
  pub pow : Num → Num → Num
  pub less : Num → Num → Bool
  pub is_zero : Num → Bool
  pub libm : Libm → Num → Num
  pub nan : Num
  pub inf : Num
  pub pi : Num

-- `struct Preferences`; `precision` is -1 for AUTOPRECISION.
pub record Preferences : Type 0 where
  pub tokens : Bool
  pub postfix : Bool
  pub errors : Bool
  pub degrees : Bool
  pub precision : ℤ
  pub max_token_length : ℕ
  pub allow_commands : Bool

abbrev pub max_precision : ℕ
max_precision = 20

module _ (d : Double) where
  open d use {Num, printf_f, of_count, mul, div, pi}

  unfoldable pub to_radians : Num → Num
  to_radians degrees = div (mul degrees pi) (of_count 180)

  unfoldable pub to_degrees : Num → Num
  to_degrees radians = div (mul radians (of_count 180)) pi

  -- `snprintf(str, maxtokenlength - 1, ...)` keeps one character less than its bound.
  abbrev pub print_at : Preferences → ℤ → Num → Str
  print_at prefs (pos n) num = take (prefs.max_token_length - 2) (printf_f (some n) num)
  print_at prefs (negsuc n) num = take (prefs.max_token_length - 2) (printf_f none num)

  abbrev pub printed_length : ℤ → Num → ℕ
  printed_length (pos n) num = length (printf_f (some n) num)
  printed_length (negsuc n) num = length (printf_f none num)

  abbrev pub decrement : ℤ → ℤ
  decrement (pos zero) = negsuc 0
  decrement (pos (suc n)) = pos n
  decrement (negsuc n) = negsuc (suc n)

  -- The initial value of `precision`.
  abbrev pub initial_precision : ℤ → ℕ
  initial_precision (pos n) = if ltb n max_precision then n else max_precision
  initial_precision (negsuc n) = max_precision

  -- `str[len-1] == '0'`, where `len` is the length that snprintf would have written.
  abbrev pub ends_in_zero : Preferences → ℤ → Num → Bool
  ends_in_zero prefs precision num =
      get_or (print_at prefs precision num) (printed_length precision num - 1) 0 == b'0'

  -- `while (str[len-1] == '0')`: prints again with one digit less. `none` if the fuel runs out.
  unfoldable pub trim_zeros : ℕ → Preferences → ℤ → Num → Option Str
  trim_zeros zero prefs precision num = none
  trim_zeros (suc fuel) prefs precision num =
      let again = trim_zeros fuel prefs (decrement precision) num in
      if ends_in_zero prefs precision num then again else some (print_at prefs precision num)

  -- `num2Str`
  unfoldable pub num2str_at : ℕ → Preferences → ℤ → Num → Option Str
  unfolding trim_zeros
  num2str_at fuel prefs (negsuc zero) num = trim_zeros fuel prefs (pos max_precision) num
  num2str_at fuel prefs mode num = some (print_at prefs (pos (initial_precision mode)) num)

  unfoldable pub num2str : ℕ → Preferences → Num → Option Str
  unfolding num2str_at
  num2str fuel prefs num = num2str_at fuel prefs prefs.precision num
