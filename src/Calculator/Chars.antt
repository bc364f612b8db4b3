-- ===== src/Calculator/Chars.antt =====
-- Characters and tokens of src/calculator.c: `type`, `isFunction`, `isSpecialValue`, `tokenType`,
-- `leftAssoc` and `precedence`.
use likwid_bench.Base.{
  ℕ, Bool, true, false, ◌&&◌, ◌||◌, Option, none, some, List, [], ◌∷◌, leb, ltb, ◌==◌,
  if◌then◌else◌, length,
}
use likwid_bench.Base.Int.{ℤ, pos, negsuc}
use likwid_bench.Base.Strings.{Str, str, strncmp_eq}

-- `Symbol`
pub data Symbol : Type 0 where
  addop multop expop lparen rparen digit value decimal space text function identifier argsep :
      Symbol
  invalid : Symbol

abbrev pub Token : Type 0
Token = Str

-- The `switch` of `type`.
unfoldable pub char_type : ℕ → Symbol
char_type ch =
    if ch == b'+' || ch == b'-'
    then addop
    else if ch == b'*' || (ch == b'/' || ch == b'%')
    then multop
    else if ch == b'^'
    then expop
    else if ch == b'('
    then lparen
    else if ch == b')'
    then rparen
    else if ch == b'.'
    then decimal
    else if ch == b' '
    then space
    else if ch == b','
    then argsep
    else if leb b'0' ch && leb ch b'9'
    then digit
    else if (leb b'A' ch && leb ch b'Z') || (leb b'a' ch && leb ch b'z')
    then text
    else invalid

-- `strncmp(tk, name, n) == 0 && strlen(tk) == n`, where n is the length of the name.
is_word : Token → Str → Bool
unfolding strncmp_eq
is_word tk name = strncmp_eq tk name (length name) && length tk == length name

any_word : Token → List Str → Bool
unfolding is_word
any_word tk [] = false
any_word tk (name ∷ names) = is_word tk name || any_word tk names

-- The names that `isFunction` compares with, in its order.
abbrev pub function_names : List Str
function_names =
    str "abs"
    ∷ str "floor"
    ∷ str "ceil"
    ∷ str "sin"
    ∷ str "cos"
    ∷ str "tan"
    ∷ str "arcsin"
    ∷ str "arccos"
    ∷ str "arctan"
    ∷ str "asin"
    ∷ str "acos"
    ∷ str "atan"
    ∷ str "sqrt"
    ∷ str "cbrt"
    ∷ str "log"
    ∷ str "min"
    ∷ str "max"
    ∷ str "sum"
    ∷ str "avg"
    ∷ str "mean"
    ∷ str "median"
    ∷ str "var"
    ∷ str "exp"
    ∷ []

unfoldable pub is_function : Token → Bool
unfolding any_word
is_function tk = any_word tk function_names

unfoldable pub is_special_value : Token → Bool
unfolding is_word
is_special_value tk = is_word tk (str "nan") || is_word tk (str "inf")

-- The first character, where the end of the string reads as NUL.
abbrev pub first : Token → ℕ
first [] = 0
first (c ∷ tk) = c

text_type : Token → Symbol
unfolding is_function is_special_value
text_type tk =
    if is_function tk then function else if is_special_value tk then value else identifier

-- The `switch` of `tokenType` on the type of the first character; `minus` is the type of the rest
-- of the token, which the code asks for only behind a minus sign with a rest.
retype : Symbol → Token → Symbol → Symbol
unfolding text_type
retype text tk minus = text_type tk
retype addop tk minus = if first tk == b'-' && ltb 1 (length tk) then minus else addop
retype decimal tk minus = value
retype digit tk minus = value
retype ret tk minus = ret

unfoldable pub token_type : Token → Symbol
unfolding char_type retype
token_type [] = char_type 0
token_type (c ∷ tk) = let minus = token_type tk in retype (char_type c) (c ∷ tk) minus

-- `tokenType` of a pointer that may be NULL.
unfoldable pub top_type : Option Token → Symbol
unfolding token_type
top_type none = invalid
top_type (some tk) = token_type tk

unfoldable pub symbol_left_assoc : Symbol → Bool
symbol_left_assoc addop = true
symbol_left_assoc multop = true
symbol_left_assoc other = false

unfoldable pub left_assoc : Token → Bool
unfolding token_type symbol_left_assoc
left_assoc op = symbol_left_assoc (token_type op)

-- The position of a symbol in the enumeration, by which C compares.
symbol_index : Symbol → ℕ
symbol_index addop = 0
symbol_index multop = 1
symbol_index expop = 2
symbol_index lparen = 3
symbol_index rparen = 4
symbol_index digit = 5
symbol_index value = 6
symbol_index decimal = 7
symbol_index space = 8
symbol_index text = 9
symbol_index function = 10
symbol_index identifier = 11
symbol_index argsep = 12
symbol_index invalid = 13

unfoldable pub symbol_eq : Symbol → Symbol → Bool
unfolding symbol_index
symbol_eq a b = symbol_index a == symbol_index b

-- The ladder of `precedence`, on the two types.
unfoldable pub type_precedence : Symbol → Symbol → ℤ
unfolding symbol_eq
type_precedence a b =
    if symbol_eq a b
    then pos 0
    else if symbol_eq a addop && (symbol_eq b multop || symbol_eq b expop)
    then negsuc 0
    else if symbol_eq b addop && (symbol_eq a multop || symbol_eq a expop)
    then pos 1
    else if symbol_eq a multop && symbol_eq b expop
    then negsuc 0
    else if symbol_eq a expop && symbol_eq b multop
    then pos 1
    else if symbol_eq a function
        && (symbol_eq b addop || (symbol_eq b multop || (symbol_eq b expop || symbol_eq b lparen)))
    then pos 1
    else if (symbol_eq a addop || (symbol_eq a multop || symbol_eq a expop)) && symbol_eq b function
    then negsuc 0
    else pos 0

unfoldable pub precedence : Token → Option Token → ℤ
unfolding token_type type_precedence
precedence op1 none = pos 1
precedence op1 (some op2) = type_precedence (token_type op1) (token_type op2)
