-- ===== src/Calculator/Pieces.antt =====
-- The loop `postfix` of src/calculator.c on the pieces of a formula: an operator between two
-- pieces, a parenthesis, a call, a comma.
use likwid_bench.Base.{
  Option, ℕ, suc, ◌≤◌, ◌<◌, ◌≡◌, refl, sym, ◌∙◌, ap, Bool, true, false, List, [], ◌∷◌, ◌++◌, arith,
  length, lt→ltb, ◌≡⟨◌⟩◌, ◌∎,
}
use likwid_bench.Base.Strings.{str}
use likwid_bench.Calculator.Chars.{
  Symbol, addop, multop, expop, Token, token_type, top_type, symbol_eq,
}
use likwid_bench.Calculator.Number.{Double}
use likwid_bench.Calculator.Func.{Outcome, done, fault, crash, hang, ◌>>=◌, push, separator}
use likwid_bench.Calculator.Machine.{
  State, operator_test, function_test, paren_test, is_function_top, drain, eval_stack_push,
  push_operator, close_paren, step, run,
}
use likwid_bench.Calculator.Formula.{Aggregate, aggregate_token}
use likwid_bench.Calculator.Ranks.{rank}
use likwid_bench.Calculator.Stops.{
  >>=_assoc, >>=_assoc₃, >>=_congr, ready, is_function_top-ready, function_test-ready, Accepts,
  rank-lparen, longer, aggregate_type, is_function,
}

module _ (d : Double) (degrees : Bool) (num2str : d.Num → Option Token) (cap : ℕ) where
  abbrev exec : List Token → State → Outcome State
  exec tokens state = run d degrees num2str cap tokens state

  abbrev unwind : (List Token → Bool) → State → Outcome State
  unwind test (ops, out) = drain d degrees num2str cap test ops out

  abbrev emit : Token → List Token → Outcome (List Token)
  emit tk out = eval_stack_push d degrees num2str cap out tk

  pub unwind_stop :
      (test : List Token → Bool) (ops out : List Token)
      → test ops ≡ false
      → unwind test (ops, out) ≡ done (ops, out)
  unfolding drain
  unwind_stop test [] out h = refl
  unwind_stop test (o ∷ ops) out h = rw (h, drain)

  unwind_move :
      (test : List Token → Bool) (o : Token) (ops out : List Token)
      → test (o ∷ ops) ≡ true
      → unwind test (o ∷ ops, out) ≡ (emit o out >>= λ u. unwind test (ops, u))
  unfolding drain
  unwind_move test o ops out h = rw (h, drain)

  exec-append :
      (xs ys : List Token) (state : State) → exec (xs ++ ys) state ≡ (exec xs state >>= exec ys)
  unfolding run
  exec-append [] ys state = refl
  exec-append (x ∷ xs) ys state =
      >>=_congr (step d degrees num2str cap (token_type x) x state) (exec (xs ++ ys))
        (λ state'. exec xs state' >>= exec ys) (exec-append xs ys)
      ∙ sym (>>=_assoc (step d degrees num2str cap (token_type x) x state) (exec xs) (exec ys))

  -- One round for an operator, and what follows the loop of that round.
  abbrev pub after_operator : Token → List Token → (List Token → Bool) → State → Outcome State
  after_operator op right test (ops, out) = exec right (push cap op ops, out) >>= unwind test

  step_operator :
      (a : Symbol) (op : Token) (s : State)
      → 1 ≤ rank a
      → step d degrees num2str cap a op s
        ≡ (unwind (operator_test op) s >>= push_operator d degrees num2str cap op)
  unfolding step
  step_operator addop op s r = refl
  step_operator multop op s r = refl
  step_operator expop op s r = refl
  step_operator _ op s r = absurd (omega arith)

  exec_operator :
      (op : Token) (right : List Token) (test : List Token → Bool)
      → 1 ≤ rank (token_type op)
      → (s : State)
      → (exec (op ∷ right) s >>= unwind test)
        ≡ (unwind (operator_test op) s >>= after_operator op right test)
  unfolding run
  exec_operator op right test r s = rw (step_operator (token_type op) op s r) (
      >>=_assoc₃ (unwind (operator_test op) s) (push_operator d degrees num2str cap op) (exec right)
        (unwind test))

  -- A binary operator between two parts: the loop in front of it has stopped where the left part
  -- began, and a test that accepts the operator evaluates it behind the right part.
  pub infix_order :
      (left right : List Token) (op : Token)
      (emit_left emit_right : List Token → Outcome (List Token)) (ops out : List Token)
      (test : List Token → Bool)
      → 1 ≤ rank (token_type op)
      → length ops < cap
      → test (op ∷ ops) ≡ true
      → (exec left (ops, out) >>= unwind (operator_test op))
        ≡ (emit_left out >>= λ u. done (ops, u))
      → ((u : List Token)
          → (exec right (op ∷ ops, u) >>= unwind test)
            ≡ (emit_right u >>= λ w. unwind test (op ∷ ops, w)))
      → (exec (left ++ (op ∷ right)) (ops, out) >>= unwind test)
        ≡ (emit_left out >>= (λ u. emit_right u >>= emit op) >>= λ w. unwind test (ops, w))
  infix_order left right op emit_left emit_right ops out test r room accepted on_left on_right =
      (exec (left ++ (op ∷ right)) (ops, out) >>= unwind test)
      ≡⟨ ap (λ m. m >>= unwind test) (exec-append left (op ∷ right) (ops, out)) ⟩
        (exec left (ops, out) >>= exec (op ∷ right) >>= unwind test)
      ≡⟨ >>=_assoc (exec left (ops, out)) (exec (op ∷ right)) (unwind test) ⟩
        (exec left (ops, out) >>= λ s. exec (op ∷ right) s >>= unwind test)
      ≡⟨ >>=_congr (exec left (ops, out)) (λ s. exec (op ∷ right) s >>= unwind test)
          (λ s. unwind (operator_test op) s >>= after_operator op right test)
          (exec_operator op right test r) ⟩
        (exec left (ops, out) >>= λ s. unwind (operator_test op) s >>= after_operator op right test)
      ≡⟨ sym (
          >>=_assoc (exec left (ops, out)) (unwind (operator_test op))
            (after_operator op right test)) ⟩
        (exec left (ops, out) >>= unwind (operator_test op) >>= after_operator op right test)
      ≡⟨ ap (λ m. m >>= after_operator op right test) on_left ⟩
        (emit_left out >>= (λ u. done (ops, u)) >>= after_operator op right test)
      ≡⟨ >>=_assoc (emit_left out) (λ u. done (ops, u)) (after_operator op right test) ⟩
        (emit_left out >>= λ u. after_operator op right test (ops, u))
      ≡⟨ >>=_congr (emit_left out) (λ u. after_operator op right test (ops, u))
          (λ u. emit_right u >>= emit op >>= λ w. unwind test (ops, w)) on_rest ⟩
        (emit_left out >>= λ u. emit_right u >>= emit op >>= λ w. unwind test (ops, w))
      ≡⟨ sym
          (>>=_assoc (emit_left out) (λ u. emit_right u >>= emit op) (λ w. unwind test (ops, w))) ⟩
        (emit_left out >>= (λ u. emit_right u >>= emit op) >>= λ w. unwind test (ops, w)) ∎
    where
      on_rest :
          (u : List Token)
          → after_operator op right test (ops, u)
            ≡ (emit_right u >>= emit op >>= λ w. unwind test (ops, w))
      on_rest u =
          rw (lt→ltb (length ops) cap room) (on_right u)
          ∙ >>=_congr (emit_right u) (λ w. unwind test (op ∷ ops, w))
              (λ w. emit op w >>= λ z. unwind test (ops, z))
              (λ w. unwind_move test op ops w accepted)
          ∙ sym (>>=_assoc (emit_right u) (emit op) (λ w. unwind test (ops, w)))

  >>=_done : (m : Outcome State) → (m >>= λ s. done s) ≡ m
  >>=_done (done s) = refl
  >>=_done (fault s) = refl
  >>=_done crash = refl
  >>=_done hang = refl

  pub paren-Accepts : (ops : List Token) → Accepts 1 (str "(" ∷ ops) paren_test
  unfolding top_type
  paren-Accepts ops o above r = rw (rank-lparen (token_type o) r) (longer above (str "(") ops)

  unwind_paren :
      (ops u : List Token) → unwind paren_test (str "(" ∷ ops, u) ≡ done (str "(" ∷ ops, u)
  unfolding token_type top_type symbol_eq
  unwind_paren ops u = unwind_stop paren_test (str "(" ∷ ops) u refl

  close_paren_top :
      (ops u : List Token)
      → close_paren d degrees num2str cap (str "(" ∷ ops, u) ≡ unwind is_function_top (ops, u)
  unfolding token_type top_type symbol_eq
  close_paren_top ops u = rw (lt→ltb 0 (suc (length ops)) (omega arith), close_paren)

  -- The right parenthesis behind a part that stands on the left one.
  pub close_order :
      (tokens : List Token) (emit_inside : List Token → Outcome (List Token)) (ops out : List Token)
      → (exec tokens (str "(" ∷ ops, out) >>= unwind paren_test)
        ≡ (emit_inside out >>= λ u. done (str "(" ∷ ops, u))
      → exec (tokens ++ (str ")" ∷ [])) (str "(" ∷ ops, out)
        ≡ (emit_inside out >>= λ u. unwind is_function_top (ops, u))
  unfolding run step token_type top_type symbol_eq
  close_order tokens emit_inside ops out inside =
      exec-append tokens (str ")" ∷ []) (str "(" ∷ ops, out)
      ∙ >>=_congr (exec tokens (str "(" ∷ ops, out)) (exec (str ")" ∷ []))
          (λ s. unwind paren_test s >>= close_paren d degrees num2str cap)
          (λ s. >>=_done (unwind paren_test s >>= close_paren d degrees num2str cap))
      ∙ sym (
          >>=_assoc (exec tokens (str "(" ∷ ops, out)) (unwind paren_test)
            (close_paren d degrees num2str cap))
      ∙ ap (λ m. m >>= close_paren d degrees num2str cap) inside
      ∙ >>=_assoc (emit_inside out) (λ u. done (str "(" ∷ ops, u))
          (close_paren d degrees num2str cap)
      ∙ >>=_congr (emit_inside out) (λ u. close_paren d degrees num2str cap (str "(" ∷ ops, u))
          (λ u. unwind is_function_top (ops, u)) (close_paren_top ops)

  pub paren_stop : (ops : List Token) → paren_test (str "(" ∷ ops) ≡ false
  unfolding token_type top_type symbol_eq
  paren_stop ops = refl

  -- A left parenthesis in the place of a value, and one behind a function.
  pub open_order :
      (rest ops out : List Token)
      → ready ops ≡ true
      → length ops < cap
      → exec (str "(" ∷ rest) (ops, out) ≡ exec rest (str "(" ∷ ops, out)
  unfolding run step token_type
  open_order rest ops out rdy room =
      rw (lt→ltb (length ops) cap room, is_function_top-ready ops rdy)

  pub call_order :
      (f : Aggregate) (rest ops out : List Token)
      → ready ops ≡ true
      → suc (length ops) < cap
      → exec (aggregate_token f ∷ (str "(" ∷ rest)) (ops, out)
        ≡ exec rest (str "(" ∷ (aggregate_token f ∷ ops), push cap separator out)
  unfolding run step token_type
  call_order f rest ops out rdy room =
      ap
        (λ a. step d degrees num2str cap a (aggregate_token f) (ops, out) >>= exec (str "(" ∷ rest))
        (aggregate_type f)
      ∙ ap
          (λ m.
            m >>= push_operator d degrees num2str cap (aggregate_token f) >>= exec (str "(" ∷ rest))
          (unwind_stop (function_test (aggregate_token f)) ops out
            (function_test-ready (aggregate_token f) ops (aggregate_type f) rdy))
      ∙ rw (
        lt→ltb (length ops) cap (omega arith),
        lt→ltb (suc (length ops)) cap room,
        is_function f ops,
      )

  -- A comma between two arguments.
  pub comma_order :
      (left right : List Token) (emit_left emit_right : List Token → Outcome (List Token))
      (ops out : List Token)
      → (exec left (str "(" ∷ ops, out) >>= unwind paren_test)
        ≡ (emit_left out >>= λ u. done (str "(" ∷ ops, u))
      → ((u : List Token)
          → (exec right (str "(" ∷ ops, u) >>= unwind paren_test)
            ≡ (emit_right u >>= λ w. done (str "(" ∷ ops, w)))
      → (exec (left ++ (str "," ∷ right)) (str "(" ∷ ops, out) >>= unwind paren_test)
        ≡ (emit_left out >>= emit_right >>= λ w. done (str "(" ∷ ops, w))
  unfolding run step token_type
  comma_order left right emit_left emit_right ops out on_left on_right =
      ap (λ m. m >>= unwind paren_test) (exec-append left (str "," ∷ right) (str "(" ∷ ops, out))
      ∙ >>=_assoc (exec left (str "(" ∷ ops, out)) (exec (str "," ∷ right)) (unwind paren_test)
      ∙ >>=_congr (exec left (str "(" ∷ ops, out))
          (λ s. exec (str "," ∷ right) s >>= unwind paren_test)
          (λ s. unwind paren_test s >>= λ s'. exec right s' >>= unwind paren_test)
          (λ s. >>=_assoc (unwind paren_test s) (exec right) (unwind paren_test))
      ∙ sym (
          >>=_assoc (exec left (str "(" ∷ ops, out)) (unwind paren_test)
            (λ s'. exec right s' >>= unwind paren_test))
      ∙ ap (λ m. m >>= λ s'. exec right s' >>= unwind paren_test) on_left
      ∙ >>=_assoc (emit_left out) (λ u. done (str "(" ∷ ops, u))
          (λ s'. exec right s' >>= unwind paren_test)
      ∙ >>=_congr (emit_left out) (λ u. exec right (str "(" ∷ ops, u) >>= unwind paren_test)
          (λ u. emit_right u >>= λ w. done (str "(" ∷ ops, w)) on_right
      ∙ sym (>>=_assoc (emit_left out) emit_right (λ w. done (str "(" ∷ ops, w)))

  -- A loop that stops where the part began leaves the operators of the part's place.
  pub settle :
      (tokens : List Token) (emit_part : List Token → Outcome (List Token)) (ops out : List Token)
      (test : List Token → Bool)
      → test ops ≡ false
      → (exec tokens (ops, out) >>= unwind test) ≡ (emit_part out >>= λ u. unwind test (ops, u))
      → (exec tokens (ops, out) >>= unwind test) ≡ (emit_part out >>= λ u. done (ops, u))
  settle tokens emit_part ops out test stop h =
      h
      ∙ >>=_congr (emit_part out) (λ u. unwind test (ops, u)) (λ u. done (ops, u))
          (λ u. unwind_stop test ops u stop)

  -- The function above which a call's parenthesis has closed is evaluated.
  pub function_done :
      (f : Aggregate) (ops u : List Token)
      → ready ops ≡ true
      → unwind is_function_top (aggregate_token f ∷ ops, u)
        ≡ (emit (aggregate_token f) u >>= λ w. done (ops, w))
  function_done f ops u rdy =
      unwind_move is_function_top (aggregate_token f) ops u (is_function f ops)
      ∙ >>=_congr (emit (aggregate_token f) u) (λ w. unwind is_function_top (ops, w))
          (λ w. done (ops, w))
          (λ w. unwind_stop is_function_top ops w (is_function_top-ready ops rdy))
  -- Emitting in the place of the tokens: exactly, for an atom; up to a loop that accepts every
  -- operator of the level, for the others.
