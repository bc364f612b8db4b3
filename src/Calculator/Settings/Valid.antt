-- ===== src/Calculator/Settings/Valid.antt =====
-- The range of the preferences of src/calculator.c, and the calls of the setters.
use likwid_bench.Base.{
  ◌≤◌, ◌<◌, ◌≡◌, inl, inr, Bool, List, [], ◌∷◌, Result, ok, err, arith, ltb, leb, Bool-cases,
  ltb→lt,
}
use likwid_bench.Base.Int.{ℤ, pos, negsuc}
use likwid_bench.Calculator.Number.{Preferences, max_precision}
use likwid_bench.Calculator.Settings.{
  init, with_flag, set_precision, set_postfix, set_print_errors, set_token_length,
  set_allow_commands, max_token_length,
}

-- A precision below MAXPRECISION or AUTOPRECISION, and a token length up to MAXTOKENLENGTH.
abbrev PrecisionValid : ℤ → Type 0
PrecisionValid (pos n) = n < max_precision
PrecisionValid (negsuc n) = n ≡ 0

abbrev pub Valid : Preferences → Type 0
Valid prefs = PrecisionValid prefs.precision × (prefs.max_token_length ≤ max_token_length)

-- The calls of a client, whose error code it may ignore: the preferences are then as before.
pub data Call : Type 0 where
  precision : ℤ → Call
  show_postfix : ℤ → Call
  print_errors : ℤ → Call
  token_length : ℤ → Call
  commands : ℤ → Call

abbrev or_kept : Preferences → Result Preferences → Preferences
or_kept prefs (ok prefs') = prefs'
or_kept prefs (err e) = prefs

unfoldable pub set : Preferences → Call → Preferences
unfolding set_precision set_postfix set_print_errors set_token_length set_allow_commands
set prefs (precision p) = or_kept prefs (set_precision prefs p)
set prefs (show_postfix flag) = or_kept prefs (set_postfix prefs flag)
set prefs (print_errors flag) = or_kept prefs (set_print_errors prefs flag)
set prefs (token_length n) = or_kept prefs (set_token_length prefs n)
set prefs (commands flag) = or_kept prefs (set_allow_commands prefs flag)

unfoldable pub set_all : Preferences → List Call → Preferences
unfolding set
set_all prefs [] = prefs
set_all prefs (call ∷ calls) = set_all (set prefs call) calls

set_precision-Valid :
    (prefs : Preferences) (p : ℤ) → Valid prefs → Valid (or_kept prefs (set_precision prefs p))
unfolding set_precision
set_precision-Valid prefs (pos n) h = elim (Bool-cases (ltb n max_precision)) [
  | inl below ↦ rw below (ltb→lt n max_precision below, h.1)
  | inr other ↦ rw other h
]
set_precision-Valid prefs (negsuc n) h = elim (Bool-cases (leb n 0)) [
  | inl zero ↦ rw zero (ground arith, h.1)
  | inr other ↦ rw other h
]

set_token_length-Valid :
    (prefs : Preferences) (n : ℤ) → Valid prefs → Valid (or_kept prefs (set_token_length prefs n))
unfolding set_token_length
set_token_length-Valid prefs (pos n) h = elim (Bool-cases (ltb n max_token_length)) [
  | inl below ↦ rw below (h.0, ground arith)
  | inr other ↦ rw other h
]
set_token_length-Valid prefs (negsuc n) h = h

with_flag-Valid :
    (prefs : Preferences) (flag : ℤ) (update : Bool → Preferences)
    → Valid prefs
    → ((b : Bool) → Valid (update b))
    → Valid (or_kept prefs (with_flag flag update))
with_flag-Valid prefs (pos n) update h k = elim (Bool-cases (leb n 1)) [
  | inl flag ↦ rw flag (k (ltb 0 n))
  | inr other ↦ rw other h
]
with_flag-Valid prefs (negsuc n) update h k = h

set-Valid : (prefs : Preferences) (call : Call) → Valid prefs → Valid (set prefs call)
unfolding set set_postfix set_print_errors set_allow_commands
set-Valid prefs (precision p) h = set_precision-Valid prefs p h
set-Valid prefs (show_postfix flag) h =
    with_flag-Valid prefs flag (λ b. record prefs { tokens = b }) h (λ b. h)
set-Valid prefs (print_errors flag) h =
    with_flag-Valid prefs flag (λ b. record prefs { errors = b }) h (λ b. h)
set-Valid prefs (token_length n) h = set_token_length-Valid prefs n h
set-Valid prefs (commands flag) h =
    with_flag-Valid prefs flag (λ b. record prefs { allow_commands = b }) h (λ b. h)

run-Valid : (calls : List Call) (prefs : Preferences) → Valid prefs → Valid (set_all prefs calls)
unfolding set_all
run-Valid [] prefs h = h
run-Valid (call ∷ calls) prefs h = run-Valid calls (set prefs call) (set-Valid prefs call h)

init-Valid : (prefs : Preferences) → Valid (init prefs)
unfolding init
init-Valid prefs = (omega arith, omega arith)

-- Behind calculator_init and any sequence of calls of the setters, with any arguments, the
-- precision is AUTOPRECISION or from 0 to below MAXPRECISION, and the token length is at most
-- MAXTOKENLENGTH.
pub set_all-Valid : (prefs : Preferences) (calls : List Call) → Valid (set_all (init prefs) calls)
set_all-Valid prefs calls = run-Valid calls (init prefs) (init-Valid prefs)
