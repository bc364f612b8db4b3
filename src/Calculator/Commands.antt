-- ===== src/Calculator/Commands.antt =====
-- The commands of src/calculator.c: `strSplit` and `execCommand`. What a `get` prints is a value.
pub mod Split
pub mod Sets
use likwid_bench.Base.{
  ℕ, zero, suc, ◌+◌, ◌*◌, ◌-◌, ◌%◌, ◌^◌, min, Bool, true, false, ◌&&◌, Option, none, some, List, [],
  ◌∷◌, ◌++◌, leb, ltb, ◌==◌, if◌then◌else◌,
}
use likwid_bench.Base.Int.{ℤ, pos, negsuc}
use likwid_bench.Base.Strings.{Str, str, strcmp_eq}
use likwid_bench.Calculator.Chars.{digit, char_type, symbol_eq, first}
use likwid_bench.Calculator.Number.{Preferences}

-- The loop of `strSplit`, with the part under construction. A part is never empty: a separator that
-- meets no part starts one. At the end of the string a NUL that meets no part starts one that is lost.
unfoldable pub split_loop : ℕ → Option Str → Str → List Str
split_loop split none [] = []
split_loop split (some part) [] = part ∷ []
split_loop split none (ch ∷ s) = split_loop split (some (ch ∷ [])) s
split_loop split (some part) (ch ∷ s) =
    let closed = part ∷ split_loop split none s in
    let longer = split_loop split (some (part ++ (ch ∷ []))) s in
    if ch == split then closed else longer

unfoldable pub str_split : Str → ℕ → List Str
unfolding split_loop
str_split s split = split_loop split none s

-- `len > i && strcmp(words[i], name) == 0`
unfoldable pub word_is : List Str → ℕ → Str → Bool
unfolding strcmp_eq
word_is [] i name = false
word_is (word ∷ words) zero name = strcmp_eq word name
word_is (word ∷ words) (suc i) name = word_is words i name

-- What a `get` prints.
pub data Reply : Type 0 where
  switch : Bool → Reply
  degrees : Bool → Reply
  precision : ℤ → Reply
  auto : Reply

-- `precision > 0`
abbrev precision_reply : ℤ → Reply
precision_reply (pos n) = if ltb 0 n then precision (pos n) else auto
precision_reply (negsuc n) = auto

-- The two halves of `execCommand`; `none` is not recognised.
unfoldable pub get_command : Preferences → List Str → Option Reply
unfolding word_is
get_command prefs words =
    if word_is words 1 (str "display")
    then (if word_is words 2 (str "tokens")
        then some (switch prefs.tokens)
        else if word_is words 2 (str "postfix")
        then some (switch prefs.postfix)
        else none)
    else if word_is words 1 (str "mode")
    then some (degrees prefs.degrees)
    else if word_is words 1 (str "precision")
    then some (precision_reply prefs.precision)
    else none

-- `on` or `off`
abbrev set_switch : List Str → (Bool → Preferences) → Option Preferences
set_switch words update =
    if word_is words 3 (str "on")
    then some (update true)
    else if word_is words 3 (str "off")
    then some (update false)
    else none

-- The digits at the head of a string, as a number.
unfoldable pub digits_value : ℕ → Str → ℕ
unfolding char_type symbol_eq
digits_value acc [] = acc
digits_value acc (ch ∷ s) =
    let rest = digits_value (10 * acc + (ch - b'0')) s in
    if symbol_eq (char_type ch) digit then rest else acc

-- A number kept as an `int`.
abbrev pub as_int : ℕ → ℤ
as_int n = let low = n % 2 ^ 32 in if ltb low (2 ^ 31) then pos low else negsuc (2 ^ 32 - 1 - low)

-- `atoi` of a string that starts with a digit, as the C library has it: `(int)strtol(s, NULL, 10)`,
-- where a number above LONG_MAX counts as LONG_MAX.
unfoldable pub atoi : Str → ℤ
unfolding digits_value
atoi s = as_int (min (digits_value 0 s) (2 ^ 63 - 1))

-- `words[2]`
abbrev second_argument : List Str → Option Str
second_argument (set ∷ precision_word ∷ value ∷ words) = some value
second_argument words = none

unfoldable pub set_precision_to : Preferences → Option Str → Option Preferences
unfolding atoi strcmp_eq
set_precision_to prefs none = none
set_precision_to prefs (some word) =
    if strcmp_eq word (str "auto")
    then some (record prefs { precision = negsuc 0 })
    else if symbol_eq (char_type (first word)) digit
    then some (record prefs { precision = atoi word })
    else none

unfoldable pub set_command : Preferences → List Str → Option Preferences
unfolding word_is set_precision_to
set_command prefs words =
    if word_is words 1 (str "display")
    then (if word_is words 2 (str "tokens")
        then set_switch words (λ b. record prefs { tokens = b })
        else if word_is words 2 (str "postfix")
        then set_switch words (λ b. record prefs { postfix = b })
        else none)
    else if word_is words 1 (str "mode")
    then (if word_is words 2 (str "radians")
        then some (record prefs { degrees = false })
        else if word_is words 2 (str "degrees")
        then some (record prefs { degrees = true })
        else none)
    else if word_is words 1 (str "precision")
    then set_precision_to prefs (second_argument words)
    else none

-- Whether the command is recognised, what it prints, and the preferences behind it.
abbrev pub Executed : Type 0
Executed = Bool × Option Reply × Preferences

abbrev got : Preferences → Option Reply → Executed
got prefs none = (false, none, prefs)
got prefs (some reply) = (true, some reply, prefs)

abbrev changed : Preferences → Option Preferences → Executed
changed prefs none = (false, none, prefs)
changed prefs (some prefs') = (true, none, prefs')

unfoldable pub exec_words : Preferences → List Str → Executed
unfolding get_command set_command
exec_words prefs words =
    if word_is words 0 (str "get")
    then got prefs (get_command prefs words)
    else if word_is words 0 (str "set")
    then changed prefs (set_command prefs words)
    else (false, none, prefs)

-- `execCommand`
unfoldable pub exec_command : Preferences → Str → Executed
unfolding str_split exec_words
exec_command prefs s = exec_words prefs (str_split s b' ')
