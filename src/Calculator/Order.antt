-- ===== src/Calculator/Order.antt =====
-- The loop `postfix` of src/calculator.c on the tokens of a formula, against the emission in postfix
-- order.
use likwid_bench.Base.{
  Option, ℕ, suc, ◌+◌, ◌≤◌, ◌<◌, ◌≡◌, refl, sym, ◌∙◌, Bool, true, List, [], ◌∷◌, ◌++◌, arith,
  length, length-append,
}
use likwid_bench.Base.Strings.{str}
use likwid_bench.Calculator.Chars.{Token, token_type}
use likwid_bench.Calculator.Number.{Double}
use likwid_bench.Calculator.Func.{Outcome, done, ◌>>=◌, push, separator}
use likwid_bench.Calculator.Machine.{
  State, operator_test, paren_test, is_function_top, drain, eval_stack_push, step, run,
}
use likwid_bench.Calculator.Formula.{
  Sum, Prod, Power, Atom, Args, prod, add, power, mul, atom, raise, num, paren, call, arg, more,
  add_token, mul_token, aggregate_token, sum_tokens, prod_tokens, power_tokens, atom_tokens,
  args_tokens, emit_sum, emit_prod, emit_power, emit_atom, emit_args,
}
use likwid_bench.Calculator.Ranks.{rank}
use likwid_bench.Calculator.Stops.{
  >>=_assoc, >>=_congr, top_rank, ready, is_function_top-ready, Accepts, Accepts-push, add_type,
  mul_type, add_stops, mul_stops, raise_stops, add-Accepts, mul-Accepts,
}
use likwid_bench.Calculator.Pieces.{
  unwind_stop, infix_order, paren-Accepts, close_order, paren_stop, open_order, call_order,
  comma_order, settle, function_done,
}

module _ (d : Double) (degrees : Bool) (num2str : d.Num → Option Token) (cap : ℕ) where
  abbrev exec : List Token → State → Outcome State
  exec tokens state = run d degrees num2str cap tokens state

  abbrev unwind : (List Token → Bool) → State → Outcome State
  unwind test (ops, out) = drain d degrees num2str cap test ops out

  abbrev emit : Token → List Token → Outcome (List Token)
  emit tk out = eval_stack_push d degrees num2str cap out tk

  mutual
    unfolding sum_tokens prod_tokens power_tokens atom_tokens args_tokens emit_sum emit_prod
        emit_power emit_atom emit_args run step

    pub sum_order :
        (e : Sum) (ops out : List Token) (test : List Token → Bool)
        → top_rank ops < 1
        → ready ops ≡ true
        → length ops + length (sum_tokens e) ≤ cap
        → Accepts 1 ops test
        → (exec (sum_tokens e) (ops, out) >>= unwind test)
          ≡ (emit_sum d degrees num2str cap e out >>= λ u. unwind test (ops, u))
    sum_order (prod p) ops out test low rdy room acc =
        prod_order p ops out test (omega arith) rdy room (λ o above r. acc o above (omega arith))
    sum_order (add s op p) ops out test low rdy room acc =
        let r : 1 ≤ rank (token_type (add_token op)) = rw (add_type op) (omega arith) in
        infix_order d degrees num2str cap (sum_tokens s) (prod_tokens p) (add_token op)
          (emit_sum d degrees num2str cap s) (emit_prod d degrees num2str cap p) ops out test r
          (omega (arith, length-append (sum_tokens s) (add_token op ∷ prod_tokens p)))
          (acc (add_token op) [] r)
          (settle d degrees num2str cap (sum_tokens s) (emit_sum d degrees num2str cap s) ops out
            (operator_test (add_token op)) (add_stops op ops low)
            (sum_order s ops out (operator_test (add_token op)) low rdy
              (omega (arith, length-append (sum_tokens s) (add_token op ∷ prod_tokens p)))
              (add-Accepts op ops)))
          (λ u.
            prod_order p (add_token op ∷ ops) u test (rw (add_type op) (omega arith))
              (rw (add_type op))
              (omega (arith, length-append (sum_tokens s) (add_token op ∷ prod_tokens p)))
              (Accepts-push 1 2 (add_token op) ops test (omega arith) acc))

    prod_order :
        (e : Prod) (ops out : List Token) (test : List Token → Bool)
        → top_rank ops < 2
        → ready ops ≡ true
        → length ops + length (prod_tokens e) ≤ cap
        → Accepts 2 ops test
        → (exec (prod_tokens e) (ops, out) >>= unwind test)
          ≡ (emit_prod d degrees num2str cap e out >>= λ u. unwind test (ops, u))
    prod_order (power f) ops out test low rdy room acc =
        power_order f ops out test rdy room (λ o above r. acc o above (omega arith))
    prod_order (mul p op f) ops out test low rdy room acc =
        let r : 2 ≤ rank (token_type (mul_token op)) = rw (mul_type op) (omega arith) in
        infix_order d degrees num2str cap (prod_tokens p) (power_tokens f) (mul_token op)
          (emit_prod d degrees num2str cap p) (emit_power d degrees num2str cap f) ops out test
          (omega arith)
          (omega (arith, length-append (prod_tokens p) (mul_token op ∷ power_tokens f)))
          (acc (mul_token op) [] r)
          (settle d degrees num2str cap (prod_tokens p) (emit_prod d degrees num2str cap p) ops out
            (operator_test (mul_token op)) (mul_stops op ops low)
            (prod_order p ops out (operator_test (mul_token op)) low rdy
              (omega (arith, length-append (prod_tokens p) (mul_token op ∷ power_tokens f)))
              (mul-Accepts op ops)))
          (λ u.
            power_order f (mul_token op ∷ ops) u test (rw (mul_type op))
              (omega (arith, length-append (prod_tokens p) (mul_token op ∷ power_tokens f)))
              (Accepts-push 2 3 (mul_token op) ops test (omega arith) acc))

    power_order :
        (e : Power) (ops out : List Token) (test : List Token → Bool)
        → ready ops ≡ true
        → length ops + length (power_tokens e) ≤ cap
        → Accepts 3 ops test
        → (exec (power_tokens e) (ops, out) >>= unwind test)
          ≡ (emit_power d degrees num2str cap e out >>= λ u. unwind test (ops, u))
    power_order (atom a) ops out test rdy room acc =
        rw (atom_order a ops out rdy room)
          (>>=_assoc (emit_atom d degrees num2str cap a out) (λ u. done (ops, u)) (unwind test))
    power_order (raise a f) ops out test rdy room acc =
        let r : 3 ≤ rank (token_type (str "^")) = omega arith in
        infix_order d degrees num2str cap (atom_tokens a) (power_tokens f) (str "^")
          (emit_atom d degrees num2str cap a) (emit_power d degrees num2str cap f) ops out test
          (omega arith) (omega (arith, length-append (atom_tokens a) (str "^" ∷ power_tokens f)))
          (acc (str "^") [] r)
          (settle d degrees num2str cap (atom_tokens a) (emit_atom d degrees num2str cap a) ops out
            (operator_test (str "^")) (raise_stops ops)
            (rw
              (atom_order a ops out rdy
                (omega (arith, length-append (atom_tokens a) (str "^" ∷ power_tokens f))))
              (>>=_assoc (emit_atom d degrees num2str cap a out) (λ u. done (ops, u))
                (unwind (operator_test (str "^"))))))
          (λ u.
            power_order f (str "^" ∷ ops) u test refl
              (omega (arith, length-append (atom_tokens a) (str "^" ∷ power_tokens f)))
              (Accepts-push 3 3 (str "^") ops test (omega arith) acc))

    atom_order :
        (e : Atom) (ops out : List Token)
        → ready ops ≡ true
        → length ops + length (atom_tokens e) ≤ cap
        → exec (atom_tokens e) (ops, out)
          ≡ (emit_atom d degrees num2str cap e out >>= λ u. done (ops, u))
    atom_order (num tk is_value) ops out rdy room = rw is_value (rw is_value)
    atom_order (paren s) ops out rdy room =
        open_order d degrees num2str cap (sum_tokens s ++ (str ")" ∷ [])) ops out rdy (omega arith)
        ∙ close_order d degrees num2str cap (sum_tokens s) (emit_sum d degrees num2str cap s) ops
            out
            (settle d degrees num2str cap (sum_tokens s) (emit_sum d degrees num2str cap s)
              (str "(" ∷ ops) out paren_test (paren_stop d degrees num2str cap ops)
              (sum_order s (str "(" ∷ ops) out paren_test (omega arith) refl
                (omega (arith, length-append (sum_tokens s) (str ")" ∷ [])))
                (paren-Accepts d degrees num2str cap ops)))
        ∙ >>=_congr (emit_sum d degrees num2str cap s out) (λ u. unwind is_function_top (ops, u))
            (λ u. done (ops, u))
            (λ u.
              unwind_stop d degrees num2str cap is_function_top ops u
                (is_function_top-ready ops rdy))
    atom_order (call f args) ops out rdy room =
        call_order d degrees num2str cap f (args_tokens args ++ (str ")" ∷ [])) ops out rdy
          (omega arith)
        ∙ close_order d degrees num2str cap (args_tokens args)
            (emit_args d degrees num2str cap args) (aggregate_token f ∷ ops)
            (push cap separator out)
            (args_order args (aggregate_token f ∷ ops) (push cap separator out)
              (omega (arith, length-append (args_tokens args) (str ")" ∷ []))))
        ∙ >>=_congr (emit_args d degrees num2str cap args (push cap separator out))
            (λ u. unwind is_function_top (aggregate_token f ∷ ops, u))
            (λ u. emit (aggregate_token f) u >>= λ w. done (ops, w))
            (λ u. function_done d degrees num2str cap f ops u rdy)
        ∙ sym (
            >>=_assoc (emit_args d degrees num2str cap args (push cap separator out))
              (emit (aggregate_token f)) (λ u. done (ops, u)))

    -- The arguments of a call stand on a left parenthesis, to which the loop of a comma or of the
    -- right parenthesis goes down.
    args_order :
        (e : Args) (ops out : List Token)
        → suc (length ops) + length (args_tokens e) ≤ cap
        → (exec (args_tokens e) (str "(" ∷ ops, out) >>= unwind paren_test)
          ≡ (emit_args d degrees num2str cap e out >>= λ u. done (str "(" ∷ ops, u))
    args_order (arg s) ops out room =
        settle d degrees num2str cap (sum_tokens s) (emit_sum d degrees num2str cap s)
          (str "(" ∷ ops) out paren_test (paren_stop d degrees num2str cap ops)
          (sum_order s (str "(" ∷ ops) out paren_test (omega arith) refl room
            (paren-Accepts d degrees num2str cap ops))
    args_order (more args s) ops out room =
        comma_order d degrees num2str cap (args_tokens args) (sum_tokens s)
          (emit_args d degrees num2str cap args) (emit_sum d degrees num2str cap s) ops out
          (args_order args ops out
            (omega (arith, length-append (args_tokens args) (str "," ∷ sum_tokens s))))
          (λ u.
            settle d degrees num2str cap (sum_tokens s) (emit_sum d degrees num2str cap s)
              (str "(" ∷ ops) u paren_test (paren_stop d degrees num2str cap ops)
              (sum_order s (str "(" ∷ ops) u paren_test (omega arith) refl
                (omega (arith, length-append (args_tokens args) (str "," ∷ sum_tokens s)))
                (paren-Accepts d degrees num2str cap ops)))
