-- ===== src/Calculator/Commands/Sets.antt =====
-- The `set` and `get` commands of src/calculator.c, from their text.
use native.Mathlib.Nat.{pow-suc, pow-zero, add-mul}
use likwid_bench.Base.{
  ℕ, ◌+◌, ◌*◌, ◌-◌, ◌^◌, ◌<◌, ◌%◌, min, length, arith, ◌≡◌, refl, sym, ◌∙◌, ap, Bool, true, false,
  none, some, List, [], ◌∷◌, ◌==◌, ==→eq, ltb, if◌then◌else◌, Bool-cases, inl, inr,
}
use likwid_bench.Base.Int.{pos, negsuc}
use likwid_bench.Base.Strings.{Str, str, strcmp_eq}
use likwid_bench.Calculator.Chars.{digit, text, space, char_type, symbol_eq}
use likwid_bench.Calculator.Number.{Preferences}
use likwid_bench.Calculator.Commands.{
  Reply, switch, degrees, precision, auto, exec_words, exec_command, digits_value, as_int, atoi,
  set_precision_to,
}
use likwid_bench.Calculator.Commands.Split.{Without, Words, join, str_split-join}

pub data Setting : Type 0 where
  display_tokens : Bool → Setting
  display_postfix : Bool → Setting
  mode_degrees : Bool → Setting
  auto_precision : Setting
  -- A number of decimal digits, the most significant one and those behind it.
  fixed_precision : ℕ → List ℕ → Setting

-- The number that decimal digits stand for, by their places.
abbrev pub number : List ℕ → ℕ
number [] = 0
number (d ∷ ds) = d * 10 ^ length ds + number ds

abbrev pub AreDigits : List ℕ → Type 0
AreDigits [] = Unit
AreDigits (d ∷ ds) = (d < 10) × AreDigits ds

abbrev pub digit_text : List ℕ → Str
digit_text [] = []
digit_text (d ∷ ds) = (b'0' + d) ∷ digit_text ds

abbrev on_off : Bool → Str
on_off true = str "on"
on_off false = str "off"

abbrev mode_name : Bool → Str
mode_name true = str "degrees"
mode_name false = str "radians"

abbrev pub set_words : Setting → List Str
set_words (display_tokens b) = str "set" ∷ str "display" ∷ str "tokens" ∷ on_off b ∷ []
set_words (display_postfix b) = str "set" ∷ str "display" ∷ str "postfix" ∷ on_off b ∷ []
set_words (mode_degrees b) = str "set" ∷ str "mode" ∷ mode_name b ∷ []
set_words auto_precision = str "set" ∷ str "precision" ∷ str "auto" ∷ []
set_words (fixed_precision d ds) = str "set" ∷ str "precision" ∷ digit_text (d ∷ ds) ∷ []

abbrev pub get_words : Setting → List Str
get_words (display_tokens b) = str "get" ∷ str "display" ∷ str "tokens" ∷ []
get_words (display_postfix b) = str "get" ∷ str "display" ∷ str "postfix" ∷ []
get_words (mode_degrees b) = str "get" ∷ str "mode" ∷ []
get_words other = str "get" ∷ str "precision" ∷ []

abbrev pub applied : Preferences → Setting → Preferences
applied prefs (display_tokens b) = record prefs { tokens = b }
applied prefs (display_postfix b) = record prefs { postfix = b }
applied prefs (mode_degrees b) = record prefs { degrees = b }
applied prefs auto_precision = record prefs { precision = negsuc 0 }
applied prefs (fixed_precision d ds) = record prefs { precision = pos (number (d ∷ ds)) }

abbrev pub shown : Setting → Reply
shown (display_tokens b) = switch b
shown (display_postfix b) = switch b
shown (mode_degrees b) = degrees b
shown auto_precision = auto
shown (fixed_precision d ds) =
    if ltb 0 (number (d ∷ ds)) then precision (pos (number (d ∷ ds))) else auto

-- A number has decimal digits and fits an `int`.
abbrev pub Written : Setting → Type 0
Written (fixed_precision d ds) = AreDigits (d ∷ ds) × (number (d ∷ ds) < 2 ^ 31)
Written other = Unit

not_a : (ch : ℕ) → char_type ch ≡ digit → (ch == b'a') ≡ false
unfolding char_type
not_a ch e = elim (Bool-cases (ch == b'a')) [
  | inl same ↦ (let t : digit ≡ text = sym e ∙ ap char_type (==→eq ch b'a' same) in cc)
  | inr other ↦ other
]

not_space : (ch : ℕ) → char_type ch ≡ digit → (ch == b' ') ≡ false
unfolding char_type
not_space ch e = elim (Bool-cases (ch == b' ')) [
  | inl same ↦ (let t : digit ≡ space = sym e ∙ ap char_type (==→eq ch b' ' same) in cc)
  | inr other ↦ other
]

char_type-digit : (d : ℕ) → d < 10 → char_type (b'0' + d) ≡ digit
unfolding char_type
char_type-digit d h = ground arith

digits_value-text :
    (acc : ℕ) (ds : List ℕ)
    → AreDigits ds
    → digits_value acc (digit_text ds) ≡ acc * 10 ^ length ds + number ds
unfolding digits_value symbol_eq
digits_value-text acc [] h = omega (arith, pow-zero 10)
digits_value-text acc (d ∷ ds) (h, hs) =
    let next : 10 * acc + (b'0' + d - b'0') ≡ 10 * acc + d = omega arith in
    rw (char_type-digit d h) (
      ap (λ n. digits_value n (digit_text ds)) next
      ∙ digits_value-text (10 * acc + d) ds hs
      ∙ omega (
        arith,
        add-mul (10 * acc) d (10 ^ length ds),
        ap (λ (p : ℕ). acc * p) (pow-suc 10 (length ds)),
      ))

as_int-small : (n : ℕ) → n < 2 ^ 31 → as_int (min n (2 ^ 63 - 1)) ≡ pos n
as_int-small n h =
    let e : min n (2 ^ 63 - 1) % 2 ^ 32 ≡ n = ground arith in
    let test : ltb n (2 ^ 31) ≡ true = ground arith in rw (e, test) refl

atoi-number :
    (d : ℕ) (ds : List ℕ)
    → AreDigits (d ∷ ds)
    → number (d ∷ ds) < 2 ^ 31
    → atoi (digit_text (d ∷ ds)) ≡ pos (number (d ∷ ds))
unfolding atoi
atoi-number d ds h small =
    let e : digits_value 0 (digit_text (d ∷ ds)) ≡ number (d ∷ ds) =
      digits_value-text 0 (d ∷ ds) h ∙ omega arith in
    ap (λ n. as_int (min n (2 ^ 63 - 1))) e ∙ as_int-small (number (d ∷ ds)) small

set_word :
    (prefs : Preferences) (ch : ℕ) (s : Str)
    → char_type ch ≡ digit
    → set_precision_to prefs (some (ch ∷ s)) ≡ some (record prefs { precision = atoi (ch ∷ s) })
unfolding set_precision_to strcmp_eq symbol_eq
set_word prefs ch s e = rw (not_a ch e, e) refl

set_number :
    (prefs : Preferences) (d : ℕ) (ds : List ℕ)
    → Written (fixed_precision d ds)
    → set_precision_to prefs (some (digit_text (d ∷ ds)))
      ≡ some (record prefs { precision = pos (number (d ∷ ds)) })
set_number prefs d ds ((h, hs), small) =
    set_word prefs (b'0' + d) (digit_text ds) (char_type-digit d h)
    ∙ ap (λ n. some (record prefs { precision = n })) (atoi-number d ds (h, hs) small)

exec_words-number :
    (prefs : Preferences) (d : ℕ) (ds : List ℕ)
    → Written (fixed_precision d ds)
    → exec_words prefs (set_words (fixed_precision d ds))
      ≡ (true, none, applied prefs (fixed_precision d ds))
unfolding exec_words
exec_words-number prefs d ds h = rw (set_number prefs d ds h) refl

digit_text-Without : (ds : List ℕ) → AreDigits ds → Without b' ' (digit_text ds)
digit_text-Without [] h = tt
digit_text-Without (d ∷ ds) (h, hs) =
    (not_space (b'0' + d) (char_type-digit d h), digit_text-Without ds hs)

set_words-Words :
    (d : ℕ) (ds : List ℕ) → AreDigits (d ∷ ds) → Words b' ' (set_words (fixed_precision d ds))
set_words-Words d ds h = (
  (refl, (refl, (refl, tt))),
  (
    (refl, (refl, (refl, (refl, (refl, (refl, (refl, (refl, (refl, tt))))))))),
    (digit_text-Without (d ∷ ds) h, tt),
  ),
)

exec_command-number :
    (prefs : Preferences) (d : ℕ) (ds : List ℕ)
    → Written (fixed_precision d ds)
    → exec_command prefs (join b' ' (set_words (fixed_precision d ds)))
      ≡ (true, none, applied prefs (fixed_precision d ds))
unfolding exec_command
exec_command-number prefs d ds (h, small) =
    ap (exec_words prefs)
      (str_split-join b' ' (set_words (fixed_precision d ds)) (set_words-Words d ds h))
    ∙ exec_words-number prefs d ds (h, small)

-- A set command, as text with one space between the words, for a preference that has one (a
-- precision as auto or as decimal digits, of a number below 2^31), is recognised, prints nothing and
-- changes that preference alone, a precision to the number that the digits stand for; the get
-- command for it then shows the value set (the precision 0 as auto) and changes nothing.
pub exec_command-set :
    (prefs : Preferences) (setting : Setting)
    → Written setting
    → (exec_command prefs (join b' ' (set_words setting)) ≡ (true, none, applied prefs setting))
      × (exec_command (applied prefs setting) (join b' ' (get_words setting))
          ≡ (true, some (shown setting), applied prefs setting))
unfolding exec_command
exec_command-set prefs (display_tokens true) h = (refl, refl)
exec_command-set prefs (display_tokens false) h = (refl, refl)
exec_command-set prefs (display_postfix true) h = (refl, refl)
exec_command-set prefs (display_postfix false) h = (refl, refl)
exec_command-set prefs (mode_degrees true) h = (refl, refl)
exec_command-set prefs (mode_degrees false) h = (refl, refl)
exec_command-set prefs auto_precision h = (refl, refl)
exec_command-set prefs (fixed_precision d ds) h = (exec_command-number prefs d ds h, refl)
