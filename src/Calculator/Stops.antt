-- ===== src/Calculator/Stops.antt =====
-- The tests of the loops of `postfix` in src/calculator.c at the operators of a formula: which they
-- accept and where they stop.
use likwid_bench.Base.{
  ℕ, suc, ◌≤◌, ◌<◌, ◌≡◌, refl, Bool, true, false, List, [], ◌∷◌, ◌++◌, ltb, arith, length,
  length-append, append_assoc, lt→ltb,
}
use likwid_bench.Base.Strings.{str}
use likwid_bench.Calculator.Chars.{
  Symbol, addop, multop, expop, lparen, function, Token, token_type, top_type, symbol_eq,
  precedence, type_precedence,
}
use likwid_bench.Calculator.Func.{Outcome, done, fault, crash, hang, ◌>>=◌}
use likwid_bench.Calculator.Machine.{le_zero, operator_test, function_test, is_function_top}
use likwid_bench.Calculator.Formula.{
  AddOp, MulOp, plus, minus, times, over, modulo, min, max, sum, avg, mean, median, var, Aggregate,
  add_token, mul_token, aggregate_token,
}
use likwid_bench.Calculator.Ranks.{
  rank, operator_test-addop, operator_test-multop, operator_test-expop,
}

pub >>=_assoc {ℓ κ μ} :
    {A : Type ℓ} {B : Type κ} {C : Type μ} (m : Outcome A) (f : A → Outcome B) (g : B → Outcome C)
    → (m >>= f >>= g) ≡ (m >>= λ a. f a >>= g)
>>=_assoc (done a) f g = refl
>>=_assoc (fault s) f g = refl
>>=_assoc crash f g = refl
>>=_assoc hang f g = refl

pub >>=_assoc₃ {ℓ κ μ ν} :
    {A : Type ℓ} {B : Type κ} {C : Type μ} {D : Type ν} (m : Outcome A) (f : A → Outcome B)
    (g : B → Outcome C) (h : C → Outcome D)
    → (m >>= f >>= g >>= h) ≡ (m >>= λ a. f a >>= g >>= h)
>>=_assoc₃ (done a) f g h = refl
>>=_assoc₃ (fault s) f g h = refl
>>=_assoc₃ crash f g h = refl
>>=_assoc₃ hang f g h = refl

pub >>=_congr {ℓ κ} :
    {A : Type ℓ} {B : Type κ} (m : Outcome A) (f g : A → Outcome B)
    → ((a : A) → f a ≡ g a)
    → (m >>= f) ≡ (m >>= g)
>>=_congr (done a) f g h = h a
>>=_congr (fault s) f g h = refl
>>=_congr crash f g h = refl
>>=_congr hang f g h = refl

abbrev pub top_rank : List Token → ℕ
top_rank [] = 0
top_rank (o ∷ ops) = rank (token_type o)

-- Below a formula stands nothing, an operator or a left parenthesis.
abbrev pub ready_symbol : Symbol → Bool
ready_symbol addop = true
ready_symbol multop = true
ready_symbol expop = true
ready_symbol lparen = true
ready_symbol other = false

abbrev pub ready : List Token → Bool
ready [] = true
ready (o ∷ ops) = ready_symbol (token_type o)

symbol_eq-function : (a : Symbol) → ready_symbol a ≡ true → symbol_eq a function ≡ false
unfolding symbol_eq
symbol_eq-function addop h = refl
symbol_eq-function multop h = refl
symbol_eq-function expop h = refl
symbol_eq-function lparen h = refl
symbol_eq-function _ h = cc

pub is_function_top-ready : (ops : List Token) → ready ops ≡ true → is_function_top ops ≡ false
unfolding top_type symbol_eq
is_function_top-ready [] h = refl
is_function_top-ready (o ∷ ops) h = symbol_eq-function (token_type o) h

function-le_zero :
    (b : Symbol) → ready_symbol b ≡ true → le_zero (type_precedence function b) ≡ false
unfolding type_precedence symbol_eq
function-le_zero addop h = refl
function-le_zero multop h = refl
function-le_zero expop h = refl
function-le_zero lparen h = refl
function-le_zero _ h = cc

pub function_test-ready :
    (tk : Token) (ops : List Token)
    → token_type tk ≡ function
    → ready ops ≡ true
    → function_test tk ops ≡ false
unfolding precedence symbol_eq
function_test-ready tk [] e h = rw e
function_test-ready tk (o ∷ ops) e h = rw (e, function-le_zero (token_type o) h)

-- What a test accepts: every operator of rank `n` at least that stands above `ops`.
abbrev pub Accepts : ℕ → List Token → (List Token → Bool) → Type 0
Accepts n ops test =
    (o : Token) (above : List Token) → n ≤ rank (token_type o) → test (o ∷ (above ++ ops)) ≡ true

pub Accepts-push :
    (n m : ℕ) (op : Token) (ops : List Token) (test : List Token → Bool)
    → n ≤ m
    → Accepts n ops test
    → Accepts m (op ∷ ops) test
Accepts-push n m op ops test le h o above r =
    rw (append_assoc above (op ∷ []) ops) at (h o (above ++ (op ∷ [])) (omega arith))

pub rank-lparen : (a : Symbol) → 1 ≤ rank a → symbol_eq a lparen ≡ false
unfolding symbol_eq
rank-lparen addop r = refl
rank-lparen multop r = refl
rank-lparen expop r = refl
rank-lparen _ r = absurd (omega arith)

pub longer :
    (above : List Token) (x : Token) (ops : List Token)
    → ltb 1 (suc (length (above ++ (x ∷ ops)))) ≡ true
longer above x ops = lt→ltb _ _ (omega (arith, length-append above (x ∷ ops)))

-- The types of the operators that a formula is written with.
pub add_type : (op : AddOp) → token_type (add_token op) ≡ addop
unfolding token_type
add_type plus = refl
add_type minus = refl

pub mul_type : (op : MulOp) → token_type (mul_token op) ≡ multop
unfolding token_type
mul_type times = refl
mul_type over = refl
mul_type modulo = refl

raise_type : token_type (str "^") ≡ expop
unfolding token_type
raise_type = refl

pub aggregate_type : (f : Aggregate) → token_type (aggregate_token f) ≡ function
unfolding token_type
aggregate_type min = refl
aggregate_type max = refl
aggregate_type sum = refl
aggregate_type avg = refl
aggregate_type mean = refl
aggregate_type median = refl
aggregate_type var = refl

pub is_function :
    (f : Aggregate) (ops : List Token) → is_function_top (aggregate_token f ∷ ops) ≡ true
unfolding top_type symbol_eq
is_function f ops = rw (aggregate_type f)

-- The loop in front of an operator stops where its part began, and accepts what stands above.
pub add_stops :
    (op : AddOp) (ops : List Token) → top_rank ops < 1 → operator_test (add_token op) ops ≡ false
unfolding top_type symbol_eq
add_stops op [] low = refl
add_stops op (o ∷ ops) low =
    rw (operator_test-addop (add_token op) o ops (add_type op)) (ground arith)

pub mul_stops :
    (op : MulOp) (ops : List Token) → top_rank ops < 2 → operator_test (mul_token op) ops ≡ false
unfolding top_type symbol_eq
mul_stops op [] low = refl
mul_stops op (o ∷ ops) low =
    rw (operator_test-multop (mul_token op) o ops (mul_type op)) (ground arith)

pub raise_stops : (ops : List Token) → operator_test (str "^") ops ≡ false
unfolding top_type symbol_eq
raise_stops [] = refl
raise_stops (o ∷ ops) = operator_test-expop (str "^") o ops raise_type

pub add-Accepts : (op : AddOp) (ops : List Token) → Accepts 1 ops (operator_test (add_token op))
add-Accepts op ops o above r =
    rw (operator_test-addop (add_token op) o (above ++ ops) (add_type op)) (ground arith)

pub mul-Accepts : (op : MulOp) (ops : List Token) → Accepts 2 ops (operator_test (mul_token op))
mul-Accepts op ops o above r =
    rw (operator_test-multop (mul_token op) o (above ++ ops) (mul_type op)) (ground arith)
