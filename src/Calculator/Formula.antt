-- ===== src/Calculator/Formula.antt =====
-- The formulas that src/calculator.c is meant to evaluate, as syntax trees by level of precedence,
-- the tokens in which each is written, and the order in which its values and operators are emitted.
use Prim.Native.Nat.{ℕ}
use likwid_bench.Base.{Option, Bool, List, [], ◌∷◌, ◌++◌, ◌≡◌}
use likwid_bench.Base.Strings.{str}
use likwid_bench.Calculator.Chars.{Token, value, token_type}
use likwid_bench.Calculator.Number.{Double}
use likwid_bench.Calculator.Func.{Outcome, ◌>>=◌, push, separator}
use likwid_bench.Calculator.Machine.{eval_stack_push}

pub data AddOp : Type 0 where
  plus minus : AddOp

pub data MulOp : Type 0 where
  times over modulo : MulOp

pub data Aggregate : Type 0 where
  min max sum avg mean median var : Aggregate

abbrev pub add_token : AddOp → Token
add_token plus = str "+"
add_token minus = str "-"

abbrev pub mul_token : MulOp → Token
mul_token times = str "*"
mul_token over = str "/"
mul_token modulo = str "%"

abbrev pub aggregate_token : Aggregate → Token
aggregate_token min = str "min"
aggregate_token max = str "max"
aggregate_token sum = str "sum"
aggregate_token avg = str "avg"
aggregate_token mean = str "mean"
aggregate_token median = str "median"
aggregate_token var = str "var"

-- Sums and products associate to the left, powers to the right; an aggregate has arguments.
mutual
  pub data Sum : Type 0 where
    prod : Prod → Sum
    add : Sum → AddOp → Prod → Sum

  pub data Prod : Type 0 where
    power : Power → Prod
    mul : Prod → MulOp → Power → Prod

  pub data Power : Type 0 where
    atom : Atom → Power
    raise : Atom → Power → Power

  pub data Atom : Type 0 where
    num : (tk : Token) → token_type tk ≡ value → Atom
    paren : Sum → Atom
    call : Aggregate → Args → Atom

  pub data Args : Type 0 where
    arg : Sum → Args
    more : Args → Sum → Args

unfoldable mutual
  pub sum_tokens : Sum → List Token
  sum_tokens (prod p) = prod_tokens p
  sum_tokens (add s op p) = sum_tokens s ++ (add_token op ∷ prod_tokens p)

  pub prod_tokens : Prod → List Token
  prod_tokens (power f) = power_tokens f
  prod_tokens (mul p op f) = prod_tokens p ++ (mul_token op ∷ power_tokens f)

  pub power_tokens : Power → List Token
  power_tokens (atom a) = atom_tokens a
  power_tokens (raise a f) = atom_tokens a ++ (str "^" ∷ power_tokens f)

  pub atom_tokens : Atom → List Token
  atom_tokens (num tk is_value) = tk ∷ []
  atom_tokens (paren s) = str "(" ∷ (sum_tokens s ++ (str ")" ∷ []))
  atom_tokens (call f args) = aggregate_token f ∷ (str "(" ∷ (args_tokens args ++ (str ")" ∷ [])))

  pub args_tokens : Args → List Token
  args_tokens (arg s) = sum_tokens s
  args_tokens (more args s) = args_tokens args ++ (str "," ∷ sum_tokens s)

-- The postfix order: operands first, each emission evaluated on the output stack at once.
module _ (d : Double) (degrees : Bool) (num2str : d.Num → Option Token) (cap : ℕ) where
  abbrev emit : List Token → Token → Outcome (List Token)
  emit out tk = eval_stack_push d degrees num2str cap out tk

  unfoldable mutual
    pub emit_sum : Sum → List Token → Outcome (List Token)
    emit_sum (prod p) out = emit_prod p out
    emit_sum (add s op p) out = do
      out' ← emit_sum s out
      out'' ← emit_prod p out'
      emit out'' (add_token op)

    pub emit_prod : Prod → List Token → Outcome (List Token)
    emit_prod (power f) out = emit_power f out
    emit_prod (mul p op f) out = do
      out' ← emit_prod p out
      out'' ← emit_power f out'
      emit out'' (mul_token op)

    pub emit_power : Power → List Token → Outcome (List Token)
    emit_power (atom a) out = emit_atom a out
    emit_power (raise a f) out = do
      out' ← emit_atom a out
      out'' ← emit_power f out'
      emit out'' (str "^")

    pub emit_atom : Atom → List Token → Outcome (List Token)
    emit_atom (num tk is_value) out = emit out tk
    emit_atom (paren s) out = emit_sum s out
    emit_atom (call f args) out = do
      out' ← emit_args args (push cap separator out)
      emit out' (aggregate_token f)

    pub emit_args : Args → List Token → Outcome (List Token)
    emit_args (arg s) out = emit_sum s out
    emit_args (more args s) out = do out' ← emit_args args out; emit_sum s out'
