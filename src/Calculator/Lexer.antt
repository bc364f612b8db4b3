-- ===== src/Calculator/Lexer.antt =====
-- `tokenize` of src/calculator.c. Of the buffer `tmpToken` the model keeps the characters written; the
-- NUL behind them stands at the index of their number. Allocations succeed. `Scan`, `Print` and
-- `Lexes` treat the scans, `Total` the loop, `Roundtrip` the text of formulas.
pub mod Scan
pub mod Total
pub mod Print
pub mod Lexes
pub mod Roundtrip
use likwid_bench.Base.{
  ℕ, zero, suc, ◌+◌, Bool, true, false, not, ◌&&◌, ◌||◌, Option, none, some, List, [], ◌∷◌, ◌++◌,
  ltb, leb, ◌==◌, if◌then◌else◌, length, Result, ok, err, Errno, efault,
}
use likwid_bench.Base.Strings.{Str, str}
use likwid_bench.Calculator.Chars.{
  Symbol, addop, multop, expop, lparen, rparen, digit, decimal, space, text, argsep, invalid, Token,
  char_type, top_type, symbol_eq,
}

abbrev pub is_exponent : ℕ → Bool
is_exponent ch = ch == b'E' || ch == b'e'

-- The test on the next character of a number: a digit, the first decimal point, the first
-- exponent, or any sign behind an exponent.
unfoldable pub number_char : Bool → Bool → ℕ → Bool
unfolding char_type symbol_eq
number_char has_decimal has_exponent ch =
    symbol_eq (char_type ch) digit
    || ((symbol_eq (char_type ch) decimal && not has_decimal)
        || ((is_exponent ch && not has_exponent) || ((ch == b'+' || ch == b'-') && has_exponent)))

abbrev pub is_decimal : ℕ → Bool
is_decimal ch = symbol_eq (char_type ch) decimal

-- The rest of a number behind `len` characters, and the rest of the string.
unfoldable pub scan_number : ℕ → ℕ → Bool → Bool → Str → Str × Str
unfolding number_char
scan_number max_token_length len has_decimal has_exponent [] = ([], [])
scan_number max_token_length len has_decimal has_exponent (ch ∷ s) =
    let rest =
      scan_number max_token_length (suc len) (has_decimal || is_decimal ch)
        (has_exponent || (not (is_decimal ch) && is_exponent ch)) s in
    if leb len max_token_length && number_char has_decimal has_exponent ch
    then (ch ∷ rest.0, rest.1)
    else ([], ch ∷ s)

-- The rest of a text token.
unfoldable pub scan_text : ℕ → ℕ → Str → Str × Str
unfolding char_type symbol_eq
scan_text max_token_length len [] = ([], [])
scan_text max_token_length len (ch ∷ s) =
    let rest = scan_text max_token_length (suc len) s in
    if symbol_eq (char_type ch) text && leb len max_token_length
    then (ch ∷ rest.0, rest.1)
    else ([], ch ∷ s)

abbrev pub behind : Str → Str × Str → Str × Str
behind start (taken, rest) = (start ++ taken, rest)

-- A number that starts with `ch`: a leading decimal point is written as "0.".
unfoldable pub number_token : ℕ → ℕ → Str → Str × Str
unfolding scan_number
number_token max_token_length ch s =
    if is_decimal ch
    then behind (b'0' ∷ b'.' ∷ []) (scan_number max_token_length 2 true false s)
    else behind (ch ∷ []) (scan_number max_token_length 1 false false s)

unfoldable pub text_token : ℕ → ℕ → Str → Str × Str
unfolding scan_text
text_token max_token_length ch s = behind (ch ∷ []) (scan_text max_token_length 1 s)

-- lparen_count, rparen_count, ops_count
abbrev pub Counts : Type 0
Counts = ℕ × ℕ × ℕ

abbrev pub count : Symbol → Counts → Counts
count lparen (l, r, o) = (suc l, r, o)
count rparen (l, r, o) = (l, suc r, o)
count multop (l, r, o) = (l, r, suc o)
count expop (l, r, o) = (l, r, suc o)
count addop (l, r, o) = (l, r, suc o)
count other counts = counts

-- Behind which types of token a minus sign may start a number.
unfoldable pub before_number : Symbol → Bool
before_number addop = true
before_number multop = true
before_number expop = true
before_number lparen = true
before_number argsep = true
before_number other = false

-- `numTokens == 0 || ...` on the last token.
unfoldable pub at_operand : Option Token → Bool
unfolding before_number top_type
at_operand none = true
at_operand (some tk) = before_number (top_type (some tk))

-- What one round of the loop assembles: the token (empty for a space), the rest of the string and
-- the counts.
-- The bytes of `tmpToken`, in which `tokenize` builds each token, with a NUL behind it.
abbrev pub buffer_size : ℕ → ℕ
buffer_size max_token_length = max_token_length + 1

abbrev pub Round : Type 0
Round = Token × Str × Counts

abbrev pub single : ℕ → Str → Counts → Round
single ch s counts = (ch ∷ [], s, count (char_type ch) counts)

abbrev pub assembled : Counts → Str × Str → Round
assembled counts (tk, s) = (tk, s, counts)

-- A minus sign where an operand is expected starts a number, if one follows.
unfoldable pub sign : ℕ → Option Token → ℕ → Str → Counts → Round
unfolding at_operand number_token
sign max_token_length last ch s counts =
    let number = number_token max_token_length ch s in
    if ch == b'-' && (at_operand last && ltb 1 (length (number.0)))
    then assembled counts number
    else single ch s counts

-- The `switch`.
unfoldable pub assemble : ℕ → Symbol → Option Token → ℕ → Str → Counts → Round
unfolding sign text_token number_token
assemble max_token_length addop last ch s counts = sign max_token_length last ch s counts
assemble max_token_length multop last ch s counts = single ch s counts
assemble max_token_length expop last ch s counts = single ch s counts
assemble max_token_length lparen last ch s counts = single ch s counts
assemble max_token_length rparen last ch s counts = single ch s counts
assemble max_token_length argsep last ch s counts = single ch s counts
assemble max_token_length digit last ch s counts =
    assembled counts (number_token max_token_length ch s)
assemble max_token_length decimal last ch s counts =
    assembled counts (number_token max_token_length ch s)
assemble max_token_length text last ch s counts =
    assembled counts (text_token max_token_length ch s)
assemble max_token_length other last ch s counts = ([], s, counts)

-- The token list and the counts at the end of the loop.
abbrev pub Lexed : Type 0
Lexed = List Token × Counts

abbrev pub prepend : Token → Option Lexed → Option Lexed
prepend tk none = none
prepend [] (some lexed) = some lexed
prepend (c ∷ tk) (some (tokens, counts)) = some ((c ∷ tk) ∷ tokens, counts)

abbrev pub last_of : Token → Option Token → Option Token
last_of [] last = last
last_of (c ∷ tk) last = some (c ∷ tk)

-- The `while` loop from a last token, on fuel; `none` if that runs out.
unfoldable pub lex : ℕ → ℕ → Option Token → Counts → Str → Option Lexed
unfolding assemble
lex zero max_token_length last counts s = none
lex (suc fuel) max_token_length last counts [] = some ([], counts)
lex (suc fuel) max_token_length last counts (ch ∷ s) = elim (symbol_eq (char_type ch) invalid) [
  | true ↦ some ([], counts)
  | false ↦
      let (tk, rest, counts') = assemble max_token_length (char_type ch) last ch s counts in
      prepend tk (lex fuel max_token_length (last_of tk last) counts' rest)
]

-- The tests behind the loop.
abbrev pub checked : Lexed → Result (List Token)
checked (tokens, (l, r, o)) =
    if not (l == r)
    then err efault
    else if length tokens == l + r + o
    then err efault
    else ok tokens

abbrev pub check_all : Option Lexed → Option (Result (List Token))
check_all none = none
check_all (some lexed) = some (checked lexed)

unfoldable pub tokenize : ℕ → Str → Option (Result (List Token))
unfolding lex
tokenize max_token_length [] = some (err efault)
tokenize max_token_length (ch ∷ s) =
    check_all (lex (suc (length (ch ∷ s))) max_token_length none (0, 0, 0) (ch ∷ s))
