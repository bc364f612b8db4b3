-- ===== src/Calculator/Machine.antt =====
-- The evaluation of src/calculator.c: `doOp`, `evalStackPush`, and the shunting-yard loop `postfix`,
-- which evaluates each operator as it leaves the operator stack. Stacks are lists, topmost first, of
-- at most `cap` tokens. The stack `intermediate` of `postfix` is left out: the code only collects
-- there the results that it frees at the end.
use likwid_bench.Base.{
  ℕ, Bool, true, false, not, ◌&&◌, ◌||◌, Option, none, some, List, [], ◌∷◌, ltb, ◌==◌,
  if◌then◌else◌, length,
}
use likwid_bench.Base.Int.{ℤ, pos, negsuc}
use likwid_bench.Calculator.Chars.{
  Symbol, addop, multop, expop, lparen, rparen, value, function, argsep, Token, token_type,
  top_type, symbol_eq, left_assoc, precedence, first,
}
use likwid_bench.Calculator.Number.{Double}
use likwid_bench.Calculator.Func.{
  Outcome, done, fault, crash, hang, on_printed, ◌>>=◌, push, separator, do_func,
}

-- `stackTop`
abbrev pub top : List Token → Option Token
top [] = none
top (x ∷ s) = some x

-- `stackPop`, where the value is dropped.
abbrev pub pop : List Token → List Token
pop [] = []
pop (x ∷ s) = s

abbrev pub le_zero : ℤ → Bool
le_zero (pos n) = n == 0
le_zero (negsuc n) = true

abbrev pub lt_zero : ℤ → Bool
lt_zero (pos n) = false
lt_zero (negsuc n) = true

-- The operator stack and the output stack.
abbrev pub State : Type 0
State = List Token × List Token

-- `tokenType(tokens[i]) != lparen && precedence(tokens[i], top) <= 0`
abbrev pub function_test : Token → List Token → Bool
function_test tk operators =
    not (symbol_eq (token_type tk) lparen) && le_zero (precedence tk (top operators))

-- `tokenType(top) != lparen && stackSize(&operators) > 1`
abbrev pub paren_test : List Token → Bool
paren_test operators = not (symbol_eq (top_type (top operators)) lparen) && ltb 1 (length operators)

abbrev pub is_operator : Symbol → Bool
is_operator a = symbol_eq a addop || (symbol_eq a multop || symbol_eq a expop)

-- The top is an operator of higher precedence, or of the same where `tk` is left-associative.
abbrev pub operator_test : Token → List Token → Bool
operator_test tk operators =
    is_operator (top_type (top operators))
    && ((left_assoc tk && le_zero (precedence tk (top operators)))
        || (not (left_assoc tk) && lt_zero (precedence tk (top operators))))

abbrev pub is_function_top : List Token → Bool
is_function_top operators = symbol_eq (top_type (top operators)) function

module _ (d : Double) (degrees : Bool) where
  open d use {Num, strtod, to_int, add, sub, mul, div, pow, is_zero, nan, inf}

  -- The result of an operator, and whether a division by zero was raised. `none` is an operator
  -- that the `switch` does not know, for which the code reads an uninitialised variable.
  unfoldable pub op_result : ℕ → Num → Num → Option (Bool × Num)
  op_result op lside rside =
      if op == b'^'
      then some (false, pow lside rside)
      else if op == b'*'
      then some (false, mul lside rside)
      else if op == b'/'
      then some (
          if is_zero rside
          then (true, if is_zero lside then nan else inf)
          else (false, div lside rside))
      else if op == b'%'
      then some (
          if is_zero rside
          then (true, if is_zero lside then nan else inf)
          else (false, sub lside (mul (to_int (div lside rside)) rside)))
      else if op == b'+'
      then some (false, add lside rside)
      else if op == b'-'
      then some (false, sub lside rside)
      else none

  module _ (num2str : Num → Option Token) (cap : ℕ) where
    push_result : Option (Bool × Num) → List Token → Outcome (List Token)
    push_result none s = crash
    push_result (some (true, ret)) s = on_printed (num2str ret) (λ tk. fault (push cap tk s))
    push_result (some (false, ret)) s = on_printed (num2str ret) (λ tk. done (push cap tk s))

    -- `doOp`, on a stack of two operands at least: the caller tests it.
    unfoldable pub do_op : Token → Token → List Token → Token → Outcome (List Token)
    unfolding op_result push_result
    do_op roperand loperand s op =
        push_result (op_result (first op) (strtod loperand) (strtod roperand)) s

    -- The stack is emptied when a function fails.
    emptied : Outcome (List Token) → Outcome (List Token)
    emptied (done s) = done s
    emptied (fault s) = fault []
    emptied crash = crash
    emptied hang = hang

    eval_op : List Token → Token → Outcome (List Token)
    unfolding do_op
    eval_op (roperand ∷ loperand ∷ s) val = do_op roperand loperand s val
    eval_op s val = done (push cap val s)

    -- The `switch` of `evalStackPush`.
    eval_symbol : Symbol → List Token → Token → Outcome (List Token)
    unfolding do_func emptied eval_op
    eval_symbol function s val = emptied (do_func d degrees num2str cap s val)
    eval_symbol expop s val = eval_op s val
    eval_symbol multop s val = eval_op s val
    eval_symbol addop s val = eval_op s val
    eval_symbol value s val = done (push cap val s)
    eval_symbol other s val = done s

    unfoldable pub eval_stack_push : List Token → Token → Outcome (List Token)
    unfolding eval_symbol token_type
    eval_stack_push s val = eval_symbol (token_type val) s val

    -- The loops of `postfix`: while operators are left and the test on the operator stack passes, the
    -- top operator is moved to the output, which evaluates it.
    unfoldable pub drain : (List Token → Bool) → List Token → List Token → Outcome State
    unfolding eval_stack_push
    drain test [] output = done ([], output)
    drain test (o ∷ operators) output = elim (test (o ∷ operators)) [
      | true ↦ eval_stack_push output o >>= λ output'. drain test operators output'
      | false ↦ done (o ∷ operators, output)
    ]

    abbrev pub push_operator : Token → State → Outcome State
    push_operator tk (operators, output) = done (push cap tk operators, output)

    -- `if (tokenType(top) == function) stackPush(output, FUNCTIONSEPARATOR)`
    abbrev pub open_paren : Token → State → Outcome State
    open_paren tk (operators, output) = done (
      push cap tk operators,
      if is_function_top operators then push cap separator output else output,
    )

    -- Behind the loop of a right parenthesis: the mismatch test, then the functions above.
    abbrev pub close_paren : State → Outcome State
    close_paren (operators, output) =
        elim (ltb 0 (length operators) && not (symbol_eq (top_type (top operators)) lparen)) [
          | true ↦ fault output
          | false ↦ drain is_function_top (pop operators) output
        ]

    -- One round of the `for` loop.
    unfoldable pub step : Symbol → Token → State → Outcome State
    unfolding drain eval_stack_push
    step value tk (operators, output) =
        eval_stack_push output tk >>= λ output'. done (operators, output')
    step function tk (operators, output) =
        drain (function_test tk) operators output >>= push_operator tk
    step argsep tk (operators, output) = drain paren_test operators output
    step addop tk (operators, output) =
        drain (operator_test tk) operators output >>= push_operator tk
    step multop tk (operators, output) =
        drain (operator_test tk) operators output >>= push_operator tk
    step expop tk (operators, output) =
        drain (operator_test tk) operators output >>= push_operator tk
    step lparen tk state = open_paren tk state
    step rparen tk (operators, output) = drain paren_test operators output >>= close_paren
    step other tk state = done state

    unfoldable pub run : List Token → State → Outcome State
    unfolding step
    run [] state = done state
    run (tk ∷ tokens) state = step (token_type tk) tk state >>= run tokens

    -- The loop behind the last token empties the operator stack. (Of a left parenthesis found there
    -- the code sets `err`, and overwrites it.)
    unfoldable pub finish : State → Outcome (List Token)
    unfolding drain
    finish (operators, output) = drain (λ _. true) operators output >>= λ state. done (state.1)

    unfoldable pub postfix : List Token → Outcome (List Token)
    unfolding run finish
    postfix tokens = run tokens ([], []) >>= finish
