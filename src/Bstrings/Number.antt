-- ===== src/Bstrings/Number.antt =====
-- `bisinteger` and `bisnumber` of src/bstrlib_helper.c. An index that only moves forward is the
-- suffix that is left, and `bchar` past the end is no byte that is tested for.
pub mod Grammar
pub mod Sound
use likwid_bench.Base.{
  ℕ, Bool, true, false, not, ◌&&◌, ◌||◌, List, [], ◌∷◌, leb, ◌==◌, if◌then◌else◌,
}
use likwid_bench.Base.Strings.{Str}

-- `isdigit`
unfoldable pub is_digit : ℕ → Bool
is_digit c = leb b'0' c && leb c b'9'

unfoldable pub bisinteger : Str → Bool
bisinteger [] = true
bisinteger (c ∷ b) = is_digit c && bisinteger b

abbrev pub at_end : Str → Bool
at_end [] = true
at_end (c ∷ b) = false

-- One byte that the test accepts, if it comes next.
unfoldable pub skip_one : (ℕ → Bool) → Str → Str
skip_one accepts [] = []
skip_one accepts (c ∷ b) = if accepts c then b else c ∷ b

-- A loop over digits, with the flag that it sets.
unfoldable pub skip_digits : (seen : Bool) → Str → Bool × Str
skip_digits seen [] = (seen, [])
skip_digits seen (c ∷ b) = elim (is_digit c) [ true ↦ skip_digits true b | false ↦ (seen, c ∷ b) ]

abbrev pub is_sign : ℕ → Bool
is_sign c = c == b'-' || c == b'+'

abbrev pub is_e : ℕ → Bool
is_e c = c == b'E' || c == b'e'

-- The part from the exponent on.
unfoldable pub exponent : Str → Bool
unfolding skip_one skip_digits
exponent [] = true
exponent (c ∷ b) =
    if is_e c
    then (let (exp_digits, rest) = skip_digits false (skip_one is_sign b) in
        exp_digits && at_end rest)
    else false

-- The part from the decimal point on.
unfoldable pub fraction : (has_digits : Bool) → Str → Bool
unfolding skip_digits exponent
fraction has_digits [] = has_digits
fraction has_digits (c ∷ b) =
    if c == b'.'
    then (let (seen, rest) = skip_digits has_digits b in seen && exponent rest)
    else has_digits && exponent (c ∷ b)

unfoldable pub bisnumber : Str → Bool
unfolding skip_one skip_digits fraction
bisnumber b =
    let (has_digits, rest) = skip_digits false (skip_one (λ c. c == b'-') b) in
    fraction has_digits rest
