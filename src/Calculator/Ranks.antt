-- ===== src/Calculator/Ranks.antt =====
-- The precedence of src/calculator.c as a rank of each symbol, and which operators the loop in front
-- of an operator moves.
use likwid_bench.Base.{
  ℕ, ◌≤◌, ◌≡◌, refl, Bool, false, not, ◌&&◌, ◌||◌, some, List, ◌∷◌, ltb, leb, if◌then◌else◌, arith,
}
use likwid_bench.Base.Int.{ℤ, pos, negsuc}
use likwid_bench.Calculator.Chars.{
  Symbol, addop, multop, expop, Token, token_type, top_type, symbol_left_assoc, type_precedence,
  left_assoc, precedence,
}
use likwid_bench.Calculator.Machine.{operator_test, is_operator, le_zero, lt_zero}

-- The precedence of an operator; 0 for every other symbol.
abbrev pub rank : Symbol → ℕ
rank addop = 1
rank multop = 2
rank expop = 3
rank other = 0

-- The sign of a comparison of ranks.
abbrev sign : ℕ → ℕ → ℤ
sign a b = if ltb a b then negsuc 0 else if ltb b a then pos 1 else pos 0

-- precedence, of two operators, is -1, 0 or 1 as the rank of the first (1 for + and -, 2 for *, / and %,
-- 3 for ^) is less than, equal to or greater than the rank of the second.
pub precedence-sign :
    (op1 op2 : Token)
    → 1 ≤ rank (token_type op1)
    → 1 ≤ rank (token_type op2)
    → precedence op1 (some op2) ≡ sign (rank (token_type op1)) (rank (token_type op2))
unfolding precedence
precedence-sign op1 op2 p q = by_type (token_type op1) (token_type op2) p q
  where
    by_type :
        (a b : Symbol) → 1 ≤ rank a → 1 ≤ rank b → type_precedence a b ≡ sign (rank a) (rank b)
    by_type addop addop p q = refl
    by_type addop multop p q = refl
    by_type addop expop p q = refl
    by_type multop addop p q = refl
    by_type multop multop p q = refl
    by_type multop expop p q = refl
    by_type expop addop p q = refl
    by_type expop multop p q = refl
    by_type expop expop p q = refl
    by_type _ _ p q = absurd (omega arith)

-- The test of the loop, on the types of the new operator and of the one on top of the stack.
abbrev moves : Symbol → Symbol → Bool
moves a b =
    is_operator b
    && ((symbol_left_assoc a && le_zero (type_precedence a b))
        || (not (symbol_left_assoc a) && lt_zero (type_precedence a b)))

moves-addop : (b : Symbol) → moves addop b ≡ leb 1 (rank b)
unfolding type_precedence symbol_left_assoc
moves-addop addop = refl
moves-addop _ = refl

moves-multop : (b : Symbol) → moves multop b ≡ leb 2 (rank b)
unfolding type_precedence symbol_left_assoc
moves-multop addop = refl
moves-multop _ = refl

moves-expop : (b : Symbol) → moves expop b ≡ false
unfolding type_precedence symbol_left_assoc
moves-expop addop = refl
moves-expop _ = refl

-- What the loop in front of each kind of operator moves.
pub operator_test-addop :
    (tk o : Token) (s : List Token)
    → token_type tk ≡ addop
    → operator_test tk (o ∷ s) ≡ leb 1 (rank (token_type o))
unfolding top_type left_assoc precedence
operator_test-addop tk o s e = rw e (moves-addop (token_type o))

pub operator_test-multop :
    (tk o : Token) (s : List Token)
    → token_type tk ≡ multop
    → operator_test tk (o ∷ s) ≡ leb 2 (rank (token_type o))
unfolding top_type left_assoc precedence
operator_test-multop tk o s e = rw e (moves-multop (token_type o))

pub operator_test-expop :
    (tk o : Token) (s : List Token) → token_type tk ≡ expop → operator_test tk (o ∷ s) ≡ false
unfolding top_type left_assoc precedence
operator_test-expop tk o s e = rw e (moves-expop (token_type o))
