-- ===== src/Calculator/Emits.antt =====
-- What the emissions of a formula by `postfix` of src/calculator.c leave on the output stack.
use likwid_bench.Base.{
  ℕ, suc, ◌+◌, ◌≤◌, ◌<◌, ◌≡◌, refl, sym, ◌∙◌, ap, Bool, false, Option, none, some, List, [], ◌∷◌,
  ◌++◌, arith, length, length-append, lt→ltb, Bool-cases, inl, inr,
}
use likwid_bench.Base.Strings.{str, strcmp_eq→eq}
use likwid_bench.Calculator.Chars.{Token, value, invalid, token_type}
use likwid_bench.Calculator.Number.{Double}
use likwid_bench.Calculator.Func.{returning, Outcome, done, fault, ◌>>=◌, separator, is_separator}
use likwid_bench.Calculator.Machine.{eval_stack_push}
use likwid_bench.Calculator.Formula.{
  AddOp, MulOp, plus, minus, times, over, modulo, Aggregate, Sum, Prod, Power, Atom, Args, prod,
  add, power, mul, atom, raise, num, paren, call, arg, more, add_token, mul_token, aggregate_token,
  sum_tokens, prod_tokens, power_tokens, atom_tokens, args_tokens, emit_sum, emit_prod, emit_power,
  emit_atom, emit_args,
}
use likwid_bench.Calculator.Value.{
  and_then, printed, apply_aggregate, add_value, mul_value, sum_value, prod_value, power_value,
  atom_value, args_values,
}
use likwid_bench.Calculator.Aggregates.{Free, aggregate-some, do_func-aggregate}
use likwid_bench.Calculator.Stops.{aggregate_type}

-- What an emission does for a formula of a given value: it pushes the value, which is never the
-- separator; for a division by zero it fails.
abbrev pub Emits : Option Token → List Token → Outcome (List Token) → Type 0
Emits (some v) out m = (m ≡ done (v ∷ out)) × (is_separator v ≡ false)
Emits none out m = (s : List Token) × (m ≡ fault s)

invalid-not_value : invalid ≡ value → ⊥
invalid-not_value e = cc

-- A value token is not the separator, whose type is another.
value-not_separator : (tk : Token) → token_type tk ≡ value → is_separator tk ≡ false
unfolding token_type is_separator
value-not_separator tk e = elim (Bool-cases (is_separator tk)) [
  | inl bar ↦ absurd (invalid-not_value (sym (ap token_type (strcmp_eq→eq tk separator bar)) ∙ e))
  | inr other ↦ other
]

mutual
  unfolding sum_tokens

  sum_positive : (e : Sum) → 1 ≤ length (sum_tokens e)
  sum_positive (prod p) = prod_positive p
  sum_positive (add s op p) =
      omega (arith, length-append (sum_tokens s) (add_token op ∷ prod_tokens p))

  prod_positive : (e : Prod) → 1 ≤ length (prod_tokens e)
  prod_positive (power f) = power_positive f
  prod_positive (mul p op f) =
      omega (arith, length-append (prod_tokens p) (mul_token op ∷ power_tokens f))

  power_positive : (e : Power) → 1 ≤ length (power_tokens e)
  power_positive (atom a) = atom_positive a
  power_positive (raise a f) =
      omega (arith, length-append (atom_tokens a) (str "^" ∷ power_tokens f))

  atom_positive : (e : Atom) → 1 ≤ length (atom_tokens e)
  atom_positive (num tk is_value) = omega arith
  atom_positive (paren s) = omega arith
  atom_positive (call f args) = omega arith

module _ (d : Double) (degrees : Bool) (num2str : d.Num → Token) (cap : ℕ)
    (plain : (x : d.Num) → is_separator (num2str x) ≡ false) where
  open d use {Num, strtod}

  abbrev emit : Token → List Token → Outcome (List Token)
  emit tk out = eval_stack_push d degrees (returning num2str) cap out tk

  -- Two operands and an operator.
  Emits-binary :
      (a b : Option Token) (f : Token → Token → Option Token) (op : Token)
      (emit_left : Outcome (List Token)) (emit_right : List Token → Outcome (List Token))
      (out : List Token)
      → Emits a out emit_left
      → ((v : Token) → Emits b (v ∷ out) (emit_right (v ∷ out)))
      → ((l r : Token) → Emits (f l r) out (emit op (r ∷ (l ∷ out))))
      → Emits
          (and_then a λ l. and_then b λ r. f l r)
          out
          (emit_left >>= λ u. emit_right u >>= emit op)
  Emits-binary none b f op emit_left emit_right out (s, h) on_right on_op = (s, rw h)
  Emits-binary (some l) none f op emit_left emit_right out (h, free) on_right on_op =
      let (s, k) = on_right l in (s, rw (h, k))
  Emits-binary (some l) (some r) f op emit_left emit_right out (h, free) on_right on_op =
      rw (h, (on_right l).0) (on_op l r)

  Emits-printed :
      (x : Option Num) (out : List Token)
      → Emits
          (printed d num2str x)
          out
          (elim x [ none ↦ fault out | some r ↦ done (num2str r ∷ out) ])
  Emits-printed none out = (out, refl)
  Emits-printed (some r) out = (refl, plain r)

  add-Emits :
      (op : AddOp) (l r : Token) (out : List Token)
      → length out < cap
      → Emits
          (some (num2str (add_value d op (strtod l) (strtod r))))
          out
          (emit (add_token op) (r ∷ (l ∷ out)))
  unfolding eval_stack_push
  add-Emits plus l r out room = (rw (lt→ltb (length out) cap room), plain _)
  add-Emits minus l r out room = (rw (lt→ltb (length out) cap room), plain _)

  mul-Emits :
      (op : MulOp) (l r : Token) (out : List Token)
      → length out < cap
      → Emits
          (printed d num2str (mul_value d op (strtod l) (strtod r)))
          out
          (emit (mul_token op) (r ∷ (l ∷ out)))
  unfolding eval_stack_push
  mul-Emits times l r out room = (rw (lt→ltb (length out) cap room), plain _)
  mul-Emits over l r out room = elim (Bool-cases (d.is_zero (strtod r))) [
    | inl zero_divisor ↦ rw zero_divisor (_, refl)
    | inr other ↦ rw (other, lt→ltb (length out) cap room) (refl, plain _)
  ]
  mul-Emits modulo l r out room = elim (Bool-cases (d.is_zero (strtod r))) [
    | inl zero_divisor ↦ rw zero_divisor (_, refl)
    | inr other ↦ rw (other, lt→ltb (length out) cap room) (refl, plain _)
  ]

  raise-Emits :
      (l r : Token) (out : List Token)
      → length out < cap
      → Emits (some (num2str (d.pow (strtod l) (strtod r)))) out (emit (str "^") (r ∷ (l ∷ out)))
  unfolding eval_stack_push
  raise-Emits l r out room = (rw (lt→ltb (length out) cap room), plain _)

  -- What the arguments of a call push: their values, `n` at most, the last one topmost.
  abbrev ArgsEmit : ℕ → Option (List Token) → List Token → Outcome (List Token) → Type 0
  ArgsEmit n (some []) out m = ⊥
  ArgsEmit n (some (x ∷ xs)) out m =
      (m ≡ done (x ∷ (xs ++ out))) × ((is_separator x ≡ false) × Free xs) × (suc (length xs) ≤ n)
  ArgsEmit n none out m = (s : List Token) × (m ≡ fault s)

  arg-Emits :
      (n : ℕ) (a : Option Token) (out : List Token) (m : Outcome (List Token))
      → 1 ≤ n
      → Emits a out m
      → ArgsEmit n (and_then a λ v. some (v ∷ [])) out m
  arg-Emits n none out m few h = h
  arg-Emits n (some v) out m few (h, free) = (h, (free, tt), few)

  more_emit :
      (n k : ℕ) (vs : Option (List Token)) (a : Option Token) (out : List Token)
      (m : Outcome (List Token)) (emit_last : List Token → Outcome (List Token))
      → n + 1 ≤ k
      → ArgsEmit n vs out m
      → ((below : List Token) → length below ≤ length out + n → Emits a below (emit_last below))
      → ArgsEmit k (and_then vs λ us. and_then a λ v. some (v ∷ us)) out (m >>= emit_last)
  more_emit n k none a out m emit_last le (s, h) on_last = (s, rw h)
  more_emit n k (some []) a out m emit_last le h on_last = absurd h
  more_emit n k (some (x ∷ xs)) none out m emit_last le (h, free, few) on_last =
      let (s, e) = on_last (x ∷ (xs ++ out)) (omega (arith, length-append xs out)) in (s, rw (h, e))
  more_emit n k (some (x ∷ xs)) (some v) out m emit_last le (h, free, few) on_last =
      let (e, v_free) = on_last (x ∷ (xs ++ out)) (omega (arith, length-append xs out)) in
      (rw (h, e), (v_free, free), omega arith)

  -- The call of an aggregate whose arguments stand on a separator.
  call-Emits :
      (f : Aggregate) (n : ℕ) (vs : Option (List Token)) (out : List Token)
      (m : Outcome (List Token))
      → length out < cap
      → ArgsEmit n vs (separator ∷ out) m
      → Emits (and_then vs (apply_aggregate d num2str f)) out (m >>= emit (aggregate_token f))
  unfolding eval_stack_push
  call-Emits f n none out m room (s, h) = (s, rw h)
  call-Emits f n (some []) out m room h = absurd h
  call-Emits f n (some (x ∷ xs)) out m room (h, free, few) =
      let (r, e) = aggregate-some d degrees f x xs in
      rw
        (h, e, aggregate_type f, do_func-aggregate d degrees num2str cap f x xs out r free.1 room e)
        (refl, plain r)

  mutual
    unfolding sum_tokens emit_sum sum_value eval_stack_push

    pub sum_Emits :
        (e : Sum) (out : List Token)
        → length out + length (sum_tokens e) ≤ cap
        → Emits (sum_value d num2str e) out (emit_sum d degrees (returning num2str) cap e out)
    sum_Emits (prod p) out room = prod_Emits p out room
    sum_Emits (add s op p) out room =
        let tokens = length-append (sum_tokens s) (add_token op ∷ prod_tokens p) in
        Emits-binary (sum_value d num2str s) (prod_value d num2str p)
          (λ l r. some (num2str (add_value d op (strtod l) (strtod r)))) (add_token op)
          (emit_sum d degrees (returning num2str) cap s out)
          (emit_prod d degrees (returning num2str) cap p) out
          (sum_Emits s out (omega (arith, tokens)))
          (λ v. prod_Emits p (v ∷ out) (omega (arith, tokens, sum_positive s)))
          (λ l r. add-Emits op l r out (omega (arith, tokens)))

    prod_Emits :
        (e : Prod) (out : List Token)
        → length out + length (prod_tokens e) ≤ cap
        → Emits (prod_value d num2str e) out (emit_prod d degrees (returning num2str) cap e out)
    prod_Emits (power f) out room = power_Emits f out room
    prod_Emits (mul p op f) out room =
        let tokens = length-append (prod_tokens p) (mul_token op ∷ power_tokens f) in
        Emits-binary (prod_value d num2str p) (power_value d num2str f)
          (λ l r. printed d num2str (mul_value d op (strtod l) (strtod r))) (mul_token op)
          (emit_prod d degrees (returning num2str) cap p out)
          (emit_power d degrees (returning num2str) cap f) out
          (prod_Emits p out (omega (arith, tokens)))
          (λ v. power_Emits f (v ∷ out) (omega (arith, tokens)))
          (λ l r. mul-Emits op l r out (omega (arith, tokens)))

    power_Emits :
        (e : Power) (out : List Token)
        → length out + length (power_tokens e) ≤ cap
        → Emits (power_value d num2str e) out (emit_power d degrees (returning num2str) cap e out)
    power_Emits (atom a) out room = atom_Emits a out room
    power_Emits (raise a f) out room =
        let tokens = length-append (atom_tokens a) (str "^" ∷ power_tokens f) in
        Emits-binary (atom_value d num2str a) (power_value d num2str f)
          (λ l r. some (num2str (d.pow (strtod l) (strtod r)))) (str "^")
          (emit_atom d degrees (returning num2str) cap a out)
          (emit_power d degrees (returning num2str) cap f) out
          (atom_Emits a out (omega (arith, tokens)))
          (λ v. power_Emits f (v ∷ out) (omega (arith, tokens)))
          (λ l r. raise-Emits l r out (omega (arith, tokens)))

    atom_Emits :
        (e : Atom) (out : List Token)
        → length out + length (atom_tokens e) ≤ cap
        → Emits (atom_value d num2str e) out (emit_atom d degrees (returning num2str) cap e out)
    atom_Emits (num tk is_value) out room =
        rw (is_value, lt→ltb (length out) cap (omega arith)) (refl, value-not_separator tk is_value)
    atom_Emits (paren s) out room =
        sum_Emits s out (omega (arith, length-append (sum_tokens s) (str ")" ∷ [])))
    atom_Emits (call f args) out room =
        let tokens = length-append (args_tokens args) (str ")" ∷ []) in
        rw (lt→ltb (length out) cap (omega arith)) (
          call-Emits f (length (args_tokens args)) (args_values d num2str args) out
            (emit_args d degrees (returning num2str) cap args (separator ∷ out)) (omega arith)
            (args_Emit args (separator ∷ out) (omega (arith, tokens))))

    args_Emit :
        (e : Args) (out : List Token)
        → length out + length (args_tokens e) ≤ cap
        → ArgsEmit
            (length (args_tokens e))
            (args_values d num2str e)
            out
            (emit_args d degrees (returning num2str) cap e out)
    args_Emit (arg s) out room =
        arg-Emits (length (sum_tokens s)) (sum_value d num2str s) out
          (emit_sum d degrees (returning num2str) cap s out) (sum_positive s) (sum_Emits s out room)
    args_Emit (more args s) out room =
        let tokens = length-append (args_tokens args) (str "," ∷ sum_tokens s) in
        more_emit (length (args_tokens args)) (length (args_tokens (more args s)))
          (args_values d num2str args) (sum_value d num2str s) out
          (emit_args d degrees (returning num2str) cap args out)
          (emit_sum d degrees (returning num2str) cap s) (omega (arith, tokens))
          (args_Emit args out (omega (arith, tokens)))
          (λ below le. sum_Emits s below (omega (arith, tokens)))
