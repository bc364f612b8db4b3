-- ===== src/Calculator/Settings.antt =====
-- The preferences of src/calculator.c and the functions that set them from outside.
pub mod Valid
use likwid_bench.Base.{
  ℕ, Bool, true, false, ◌||◌, List, [], ◌∷◌, ltb, leb, if◌then◌else◌, Result, ok, err, einval,
}
use likwid_bench.Base.Int.{ℤ, pos, negsuc}
use likwid_bench.Calculator.Number.{Preferences, max_precision}

-- MAXTOKENLENGTH and DEFAULTPRECISION
abbrev pub max_token_length : ℕ
max_token_length = 512

abbrev pub default_precision : ℕ
default_precision = 5

-- `calculator_init`; DEFAULTALLOWCOMMANDS is 0. The other fields are kept.
unfoldable pub init : Preferences → Preferences
init prefs = record prefs {
  precision = pos default_precision;
  max_token_length = max_token_length;
  allow_commands = false;
  errors = true;
}

-- AUTOPRECISION is -1.
abbrev is_precision : ℤ → Bool
is_precision (pos n) = ltb n max_precision
is_precision (negsuc n) = leb n 0

unfoldable pub set_precision : Preferences → ℤ → Result Preferences
set_precision prefs precision =
    if is_precision precision then ok (record prefs { precision = precision }) else err einval

-- `flag >= 0 && flag <= 1`
abbrev pub with_flag : ℤ → (Bool → Preferences) → Result Preferences
with_flag (pos n) update = if leb n 1 then ok (update (ltb 0 n)) else err einval
with_flag (negsuc n) update = err einval

-- `calculator_setpostfix`, which sets `display.tokens`.
unfoldable pub set_postfix : Preferences → ℤ → Result Preferences
set_postfix prefs flag = with_flag flag λ b. record prefs { tokens = b }

unfoldable pub set_print_errors : Preferences → ℤ → Result Preferences
set_print_errors prefs flag = with_flag flag λ b. record prefs { errors = b }

unfoldable pub set_token_length : Preferences → ℤ → Result Preferences
set_token_length prefs (pos n) =
    if ltb n max_token_length then ok (record prefs { max_token_length = n }) else err einval
set_token_length prefs (negsuc n) = err einval

unfoldable pub set_allow_commands : Preferences → ℤ → Result Preferences
set_allow_commands prefs flag = with_flag flag λ b. record prefs { allow_commands = b }
