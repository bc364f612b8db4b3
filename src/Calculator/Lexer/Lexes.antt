-- ===== src/Calculator/Lexer/Lexes.antt =====
-- The loop of `tokenize` in src/calculator.c on the text of a piece of a formula.
use likwid_bench.Base.{
  ℕ, suc, ◌+◌, ◌≤◌, ◌<◌, ◌≡◌, refl, sym, ◌∙◌, ap, Bool, true, false, Option, none, some, List, [],
  ◌∷◌, ◌++◌, append_assoc, append-nil, ◌==◌, length, length-append, arith,
}
use likwid_bench.Base.Strings.{Str, str}
use likwid_bench.Calculator.Chars.{
  Symbol, addop, multop, expop, lparen, rparen, digit, text, argsep, invalid, Token, char_type,
  symbol_eq,
}
use likwid_bench.Calculator.Lexer.{
  Counts, Lexed, count, at_operand, assemble, single, Round, assembled, prepend, last_of,
}
use likwid_bench.Calculator.Lexer.Total.{lexed, lexed-cons}
use likwid_bench.Calculator.Lexer.Print.{
  stops, Stop, is_numeral, is_name, and-false, number_token-numeral, text_token-name,
}

-- The tokens written one behind the other.
abbrev pub concat : List Token → Str
concat [] = []
concat (tk ∷ tokens) = tk ++ concat tokens

pub concat-append : (ts us : List Token) → concat (ts ++ us) ≡ concat ts ++ concat us
concat-append [] us = refl
concat-append (t ∷ ts) us =
    ap (λ s. t ++ s) (concat-append ts us) ∙ sym (append_assoc t (concat ts) (concat us))

abbrev pub prepend_all : List Token → Option Lexed → Option Lexed
prepend_all ts none = none
prepend_all ts (some (us, counts)) = some (ts ++ us, counts)

prepend-prepend_all :
    (ch : ℕ) (tk : Token) (ts : List Token) (o : Option Lexed)
    → prepend (ch ∷ tk) (prepend_all ts o) ≡ prepend_all ((ch ∷ tk) ∷ ts) o
prepend-prepend_all ch tk ts none = refl
prepend-prepend_all ch tk ts (some lexed) = refl

prepend-one :
    (ch : ℕ) (tk : Token) (o : Option Lexed) → prepend (ch ∷ tk) o ≡ prepend_all ((ch ∷ tk) ∷ []) o
prepend-one ch tk none = refl
prepend-one ch tk (some lexed) = refl

prepend_all_append :
    (ts us : List Token) (o : Option Lexed)
    → prepend_all ts (prepend_all us o) ≡ prepend_all (ts ++ us) o
prepend_all_append ts us none = refl
prepend_all_append ts us (some (vs, counts)) =
    ap (λ ws. some (ws, counts)) (sym (append_assoc ts us vs))

-- The counts of a balanced piece of `n` tokens, of which one at least is not counted.
abbrev pub Grows : ℕ → Counts → Counts → Type 0
Grows n (l, r, o) (l', r', o') = (l' + r ≡ r' + l) × (l' + r' + o' < l + r + o + n)

-- The loop turns the text of these tokens into them, in front of any rest that ends the last one.
unfoldable pub Lexes : ℕ → List Token → Type 0
Lexes m tokens =
    (last : Option Token) (counts : Counts) (rest : Str)
    → Stop rest
    → (last' : Option Token) × (counts' : Counts) × (at_operand last' ≡ false)
      × Grows (length tokens) counts counts'
      × (lexed m last counts (concat tokens ++ rest)
          ≡ prepend_all tokens (lexed m last' counts' rest))

stops-valid : (a : Symbol) → stops a ≡ true → symbol_eq a invalid ≡ false
unfolding stops symbol_eq
stops-valid addop h = refl
stops-valid multop h = refl
stops-valid expop h = refl
stops-valid lparen h = refl
stops-valid rparen h = refl
stops-valid argsep h = refl
stops-valid _ h = absurd cc

assemble-single :
    (m : ℕ) (a : Symbol) (last : Option Token) (ch : ℕ) (s : Str) (counts : Counts)
    → stops a ≡ true
    → at_operand last ≡ false
    → assemble m a last ch s counts ≡ single ch s counts
unfolding stops assemble
assemble-single m addop last ch s counts h operator = rw (operator, and-false (ch == b'-')) refl
assemble-single m multop last ch s counts h operator = refl
assemble-single m expop last ch s counts h operator = refl
assemble-single m lparen last ch s counts h operator = refl
assemble-single m rparen last ch s counts h operator = refl
assemble-single m argsep last ch s counts h operator = refl
assemble-single m _ last ch s counts h operator = absurd cc

-- A single character behind an operand.
lexed-single :
    (m : ℕ) (last : Option Token) (counts : Counts) (ch : ℕ) (s : Str)
    → stops (char_type ch) ≡ true
    → at_operand last ≡ false
    → lexed m last counts (ch ∷ s)
      ≡ prepend (ch ∷ []) (lexed m (some (ch ∷ [])) (count (char_type ch) counts) s)
lexed-single m last counts ch s h operator =
    lexed-cons m last counts ch s (stops-valid (char_type ch) h)
    ∙ rw (assemble-single m (char_type ch) last ch s counts h operator) refl

-- An opening parenthesis, behind anything.
lexed-lparen :
    (m : ℕ) (last : Option Token) (counts : Counts) (s : Str)
    → lexed m last counts (b'(' ∷ s)
      ≡ prepend (str "(") (lexed m (some (str "(")) (count lparen counts) s)
unfolding assemble
lexed-lparen m last counts s = lexed-cons m last counts b'(' s refl

abbrev pub glue : Symbol → Bool
glue addop = true
glue multop = true
glue expop = true
glue argsep = true
glue other = false

glue-stops : (a : Symbol) → glue a ≡ true → stops a ≡ true
unfolding stops
glue-stops addop h = refl
glue-stops multop h = refl
glue-stops expop h = refl
glue-stops argsep h = refl
glue-stops _ h = absurd cc

-- Two pieces and an operator or a comma between them.
Grows-glue :
    (a : Symbol) (n k : ℕ) (before between after : Counts)
    → glue a ≡ true
    → Grows n before between
    → Grows k (count a between) after
    → Grows (n + suc k) before after
Grows-glue addop n k (l, r, o) (l', r', o') (l'', r'', o'') h g g' = (omega arith, omega arith)
Grows-glue multop n k (l, r, o) (l', r', o') (l'', r'', o'') h g g' = (omega arith, omega arith)
Grows-glue expop n k (l, r, o) (l', r', o') (l'', r'', o'') h g g' = (omega arith, omega arith)
Grows-glue argsep n k (l, r, o) (l', r', o') (l'', r'', o'') h g g' = (omega arith, omega arith)
Grows-glue _ n k before between after h g g' = absurd cc

infix_text :
    (ts us : List Token) (ch : ℕ) (rest : Str)
    → concat (ts ++ ((ch ∷ []) ∷ us)) ++ rest ≡ concat ts ++ (ch ∷ (concat us ++ rest))
infix_text ts us ch rest =
    ap (λ s. s ++ rest) (concat-append ts ((ch ∷ []) ∷ us))
    ∙ append_assoc (concat ts) (ch ∷ concat us) rest

pub Lexes-infix :
    (m : ℕ) (ts us : List Token) (ch : ℕ)
    → glue (char_type ch) ≡ true
    → Lexes m ts
    → Lexes m us
    → Lexes m (ts ++ ((ch ∷ []) ∷ us))
unfolding Lexes
Lexes-infix m ts us ch h on_left on_right last counts rest stop =
    let ends = glue-stops (char_type ch) h in
    let (last₁, counts₁, operand₁, grows₁, e₁) =
      on_left last counts (ch ∷ (concat us ++ rest)) ends in
    let (last₂, counts₂, operand₂, grows₂, e₂) =
      on_right (some (ch ∷ [])) (count (char_type ch) counts₁) rest stop in
    (
      last₂,
      counts₂,
      operand₂,
      rw (length-append ts ((ch ∷ []) ∷ us)) (
          Grows-glue (char_type ch) (length ts) (length us) counts counts₁ counts₂ h grows₁ grows₂),
      ap (lexed m last counts) (infix_text ts us ch rest)
          ∙ e₁
          ∙ ap (prepend_all ts) (
              lexed-single m last₁ counts₁ ch (concat us ++ rest) ends operand₁
              ∙ ap (prepend (ch ∷ [])) e₂
              ∙ prepend-prepend_all ch [] us (lexed m last₂ counts₂ rest))
          ∙ prepend_all_append ts ((ch ∷ []) ∷ us) (lexed m last₂ counts₂ rest),
    )

Grows-paren :
    (n : ℕ) (before inside : Counts)
    → Grows n (count lparen before) inside
    → Grows (suc (n + 1)) before (count rparen inside)
Grows-paren n (l, r, o) (l', r', o') g = (omega arith, omega arith)

paren_text :
    (ts : List Token) (rest : Str)
    → concat (ts ++ (str ")" ∷ [])) ++ rest ≡ concat ts ++ (b')' ∷ rest)
paren_text ts rest =
    ap (λ s. s ++ rest) (concat-append ts (str ")" ∷ [])) ∙ append_assoc (concat ts) (str ")") rest

-- A piece in parentheses.
pub Lexes-paren :
    (m : ℕ) (ts : List Token) → Lexes m ts → Lexes m (str "(" ∷ (ts ++ (str ")" ∷ [])))
unfolding Lexes stops at_operand
Lexes-paren m ts on_inside last counts rest stop =
    let (last₁, counts₁, operand₁, grows₁, e₁) =
      on_inside (some (str "(")) (count lparen counts) (b')' ∷ rest) refl in
    let end = lexed m (some (str ")")) (count rparen counts₁) rest in
    (
      some (str ")"),
      count rparen counts₁,
      refl,
      rw (length-append ts (str ")" ∷ [])) (Grows-paren (length ts) counts counts₁ grows₁),
      lexed-lparen m last counts (concat (ts ++ (str ")" ∷ [])) ++ rest)
          ∙ ap (prepend (str "(")) (
              ap (lexed m (some (str "(")) (count lparen counts)) (paren_text ts rest)
              ∙ e₁
              ∙ ap (prepend_all ts)
                  (lexed-single m last₁ counts₁ b')' rest refl operand₁ ∙ prepend-one b')' [] end)
              ∙ prepend_all_append ts (str ")" ∷ []) end)
          ∙ prepend-prepend_all b'(' [] (ts ++ (str ")" ∷ [])) end,
    )

abbrev pub advance : ℕ → Option Token → Round → Option Lexed
advance m last (tk, rest, counts) = prepend tk (lexed m (last_of tk last) counts rest)

-- A number and a name, in front of a character that ends them.
lexed-number :
    (m : ℕ) (last : Option Token) (counts : Counts) (ch : ℕ) (tk rest : Str)
    → char_type ch ≡ digit
    → is_numeral false tk ≡ true
    → length (ch ∷ tk) ≤ suc m
    → Stop rest
    → lexed m last counts (ch ∷ (tk ++ rest))
      ≡ prepend (ch ∷ tk) (lexed m (some (ch ∷ tk)) counts rest)
unfolding assemble symbol_eq
lexed-number m last counts ch tk rest e h room stop =
    lexed-cons m last counts ch (tk ++ rest) (rw e refl)
    ∙ rw e (
        ap (λ p. advance m last (assembled counts p))
          (number_token-numeral m ch tk rest e h room stop))

lexed-name :
    (m : ℕ) (last : Option Token) (counts : Counts) (ch : ℕ) (tk rest : Str)
    → char_type ch ≡ text
    → is_name tk ≡ true
    → length (ch ∷ tk) ≤ suc m
    → Stop rest
    → lexed m last counts (ch ∷ (tk ++ rest))
      ≡ prepend (ch ∷ tk) (lexed m (some (ch ∷ tk)) counts rest)
unfolding assemble symbol_eq
lexed-name m last counts ch tk rest e h room stop =
    lexed-cons m last counts ch (tk ++ rest) (rw e refl)
    ∙ rw e
        (ap (λ p. advance m last (assembled counts p)) (text_token-name m ch tk rest h room stop))

-- Numerals as the tokenizer reads them: a digit, then digits with one point at most.
abbrev pub Numeral : ℕ → Token → Type 0
Numeral m [] = ⊥
Numeral m (ch ∷ tk) =
    (char_type ch ≡ digit) × (is_numeral false tk ≡ true) × (length (ch ∷ tk) ≤ suc m)

digit_operand : (ch : ℕ) (tk : Str) → char_type ch ≡ digit → at_operand (some (ch ∷ tk)) ≡ false
unfolding at_operand
digit_operand ch tk e = rw e refl

Grows-one : (counts : Counts) → Grows 1 counts counts
Grows-one (l, r, o) = (omega arith, omega arith)

pub Lexes-number : (m : ℕ) (tk : Token) → Numeral m tk → Lexes m (tk ∷ [])
unfolding Lexes
Lexes-number m [] h last counts rest stop = absurd h
Lexes-number m (ch ∷ tk) (e, h, room) last counts rest stop = (
  some (ch ∷ tk),
  counts,
  digit_operand ch tk e,
  Grows-one counts,
  ap (λ s. lexed m last counts (ch ∷ (s ++ rest))) (append-nil tk)
      ∙ lexed-number m last counts ch tk rest e h room stop
      ∙ prepend-one ch tk (lexed m (some (ch ∷ tk)) counts rest),
)

Grows-call : (n : ℕ) (before after : Counts) → Grows n before after → Grows (suc n) before after
Grows-call n (l, r, o) (l', r', o') g = (omega arith, omega arith)

-- A name in front of a parenthesis.
pub Lexes-name :
    (m ch : ℕ) (tk : Str) (ts : List Token)
    → char_type ch ≡ text
    → is_name tk ≡ true
    → length (ch ∷ tk) ≤ suc m
    → Lexes m (str "(" ∷ ts)
    → Lexes m ((ch ∷ tk) ∷ (str "(" ∷ ts))
unfolding Lexes stops char_type
Lexes-name m ch tk ts e h room on_rest last counts rest stop =
    let (last₁, counts₁, operand₁, grows₁, e₁) = on_rest (some (ch ∷ tk)) counts rest stop in
    (
      last₁,
      counts₁,
      operand₁,
      Grows-call (suc (length ts)) counts counts₁ grows₁,
      ap (λ s. lexed m last counts (ch ∷ s)) (append_assoc tk (b'(' ∷ concat ts) rest)
          ∙ lexed-name m last counts ch tk (b'(' ∷ (concat ts ++ rest)) e h room refl
          ∙ ap (prepend (ch ∷ tk)) e₁
          ∙ prepend-prepend_all ch tk (str "(" ∷ ts) (lexed m last₁ counts₁ rest),
    )
