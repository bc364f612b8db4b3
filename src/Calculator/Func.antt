-- ===== src/Calculator/Func.antt =====
-- `doFunc` of src/calculator.c: a function applied to the arguments on the output stack, down to the
-- separator that the opening parenthesis has left there. A stack is a list, topmost first, of at
-- most `cap` tokens (the contract that src/stack.c keeps).
use likwid_bench.Base.{
  ℕ, ◌+◌, ◌-◌, ◌/◌, Bool, false, not, ◌&&◌, ◌||◌, Option, none, some, List, [], ◌∷◌, ltb,
  if◌then◌else◌, length, drop,
}
use likwid_bench.Base.Strings.{Str, str, strcmp_eq, strncmp_eq}
use likwid_bench.Calculator.Chars.{Token}
use likwid_bench.Calculator.Number.{
  Libm, fabs, floor, ceil, sin, cos, tan, asin, acos, atan, sqrt, cbrt, log, exp, Double,
  to_radians, to_degrees,
}

-- What a call does with the output stack: it returns 0 or -EFAULT, each with the stack that it
-- leaves, it passes NULL to a function of the C library, or it does not return.
pub data Outcome {ℓ} (A : Type ℓ) : Type ℓ where
  done : A → Outcome A
  fault : List Token → Outcome A
  crash : Outcome A
  hang : Outcome A

infixl 5 ◌>>=◌
abbrev pub ◌>>=◌ {ℓ κ} : {A : Type ℓ} {B : Type κ} → Outcome A → (A → Outcome B) → Outcome B
done a >>= f = f a
fault s >>= f = fault s
crash >>= f = crash
hang >>= f = hang

-- A number printed by `num2Str`, which may not return.
abbrev pub on_printed {ℓ} : {A : Type ℓ} → Option Token → (Token → Outcome A) → Outcome A
on_printed none f = hang
on_printed (some tk) f = f tk

-- A print that returns.
abbrev pub returning : {Num : Type 0} → (Num → Token) → Num → Option Token
returning print x = some (print x)

-- FUNCTIONSEPARATOR
abbrev pub separator : Token
separator = str "|"

unfoldable pub is_separator : Token → Bool
unfolding strcmp_eq
is_separator tk = strcmp_eq tk separator

-- `stackPush`, whose status the calculator ignores: a push on a full stack is lost.
abbrev pub push {ℓ} : {A : Type ℓ} → ℕ → A → List A → List A
push cap x s = if ltb (length s) cap then x ∷ s else s

pub data Func : Type 0 where
  plain : Libm → Func
  from_angle : Libm → Func
  to_angle : Libm → Func
  min_func max_func sum_func avg_func median_func var_func : Func
  unchanged : Func

abbrev pub starts : Token → Str → Bool
starts f name = strncmp_eq f name (length name)

-- The functions that `doFunc` lets take more than one argument.
unfoldable pub is_aggregate : Token → Bool
unfolding strncmp_eq
is_aggregate f =
    starts f (str "min")
    || (starts f (str "max")
        || (starts f (str "sum")
            || (starts f (str "avg")
                || (starts f (str "mean") || (starts f (str "median") || starts f (str "var"))))))

-- The ladder of `doFunc`, which compares prefixes.
unfoldable pub select : Token → Func
unfolding strncmp_eq
select f =
    if starts f (str "abs")
    then plain fabs
    else if starts f (str "floor")
    then plain floor
    else if starts f (str "ceil")
    then plain ceil
    else if starts f (str "sin")
    then from_angle sin
    else if starts f (str "cos")
    then from_angle cos
    else if starts f (str "tan")
    then from_angle tan
    else if starts f (str "arcsin") || starts f (str "asin")
    then to_angle asin
    else if starts f (str "arccos") || starts f (str "acos")
    then to_angle acos
    else if starts f (str "arctan") || starts f (str "atan")
    then to_angle atan
    else if starts f (str "sqrt")
    then plain sqrt
    else if starts f (str "cbrt")
    then plain cbrt
    else if starts f (str "log")
    then plain log
    else if starts f (str "exp")
    then plain exp
    else if starts f (str "min")
    then min_func
    else if starts f (str "max")
    then max_func
    else if starts f (str "sum")
    then sum_func
    else if starts f (str "avg") || starts f (str "mean")
    then avg_func
    else if starts f (str "median")
    then median_func
    else if starts f (str "var")
    then var_func
    else unchanged

-- `while (stackSize(s) > 0 && strcmp(stackTop(s), "|") != 0)`: each argument is popped and handed to
-- the body, which updates its variables.
unfoldable pub args_loop {ℓ} : {A : Type ℓ} → (A → Token → A) → A → List Token → A × List Token
unfolding is_separator
args_loop body acc [] = (acc, [])
args_loop body acc (x ∷ s) =
    let rest = args_loop body (body acc x) s in if is_separator x then (acc, x ∷ s) else rest

abbrev pub is_lone_separator : List Token → Bool
is_lone_separator (x ∷ []) = is_separator x
is_lone_separator s = false

module _ (d : Double) (degrees : Bool) where
  open d use {Num, strtod, of_count, add, sub, div, pow, less, libm}

  -- `while (stackSize(&tmp) > 0 && buildNumber(stackTop(&tmp)) < num)`
  unfoldable pub unload : ℕ → Num → List Token → List Token → List Token × List Token
  unload cap num [] safe = ([], safe)
  unload cap num (t ∷ tmp) safe =
      let rest = unload cap num tmp (push cap t safe) in
      if less (strtod t) num then rest else (t ∷ tmp, safe)

  -- `while (stackSize(&safe) > 0) stackPush(&tmp, stackPop(&safe))`
  unfoldable pub reload : ℕ → List Token → List Token → List Token
  reload cap [] tmp = tmp
  reload cap (t ∷ safe) tmp = reload cap safe (push cap t tmp)

  unfoldable pub insert_sorted : ℕ → List Token → Token → List Token
  unfolding unload reload
  insert_sorted cap tmp input =
      let (tmp', safe) = unload cap (strtod input) tmp [] in reload cap safe (push cap input tmp')

  -- The branches with a loop. `input` is the first argument, popped already; `s` is the rest.
  abbrev pub min_step : Num → Token → Num
  min_step result x = if less (strtod x) result then strtod x else result

  abbrev pub max_step : Num → Token → Num
  max_step result x = if less result (strtod x) then strtod x else result

  abbrev pub sum_step : Num → Token → Num
  sum_step result x = add result (strtod x)

  abbrev pub avg_step : Num × ℕ → Token → Num × ℕ
  avg_step (result, counter) x = (add result (strtod x), counter + 1)

  abbrev pub median_step : ℕ → List Token × ℕ → Token → List Token × ℕ
  median_step cap (tmp, counter) x = (insert_sorted cap tmp x, counter + 1)

  abbrev pub var_step : ℕ → List Token × Num × ℕ → Token → List Token × Num × ℕ
  var_step cap (tmp, mean, counter) x = (push cap x tmp, add mean (strtod x), counter + 1)

  abbrev pub divide : Num × ℕ → Num
  divide (result, counter) = div result (of_count counter)

  abbrev pub top_number : List Token → Option Num
  top_number [] = none
  top_number (t ∷ s) = some (strtod t)

  -- Pops up to the median index, then the median.
  abbrev pub median_of : List Token × ℕ → Option Num
  median_of (tmp, counter) = top_number (drop ((counter + 1) / 2 - 1) tmp)

  -- `while (stackSize(&tmp) > 0)`: the sum of the squared differences.
  unfoldable pub squares : Num → Num → List Token → Num
  squares mean result [] = result
  squares mean result (x ∷ tmp) =
      squares mean (add result (pow (sub (strtod x) mean) (of_count 2))) tmp

  unfoldable pub variance_of : List Token × Num × ℕ → Num
  unfolding squares
  variance_of (tmp, mean, counter) =
      div (squares (div mean (of_count counter)) (of_count 0) tmp) (of_count counter)

  -- The capacity of the temporary stacks.
  abbrev pub tmp_cap : List Token → ℕ
  tmp_cap s = if ltb 0 (length s) then length s else 1

  abbrev pub finish {ℓ} : {A : Type ℓ} → (A → Option Num) → A × List Token → Option Num × List Token
  finish f (acc, s) = (f acc, s)

  unfoldable pub apply_func : Func → Token → List Token → Option Num × List Token
  unfolding args_loop
  apply_func (plain f) input s = (some (libm f (strtod input)), s)
  apply_func (from_angle f) input s =
      (some (if degrees then libm f (to_radians d (strtod input)) else libm f (strtod input)), s)
  apply_func (to_angle f) input s =
      (some (if degrees then to_degrees d (libm f (strtod input)) else libm f (strtod input)), s)
  apply_func min_func input s = finish some (args_loop min_step (strtod input) s)
  apply_func max_func input s = finish some (args_loop max_step (strtod input) s)
  apply_func sum_func input s = finish some (args_loop sum_step (strtod input) s)
  apply_func avg_func input s =
      finish (λ acc. some (divide acc)) (args_loop avg_step (strtod input, 1) s)
  apply_func median_func input s =
      finish median_of (args_loop (median_step (tmp_cap s)) (push (tmp_cap s) input [], 1) s)
  apply_func var_func input s =
      finish (λ acc. some (variance_of acc))
        (args_loop (var_step (tmp_cap s)) (push (tmp_cap s) input [], strtod input, 1) s)
  apply_func unchanged input s = (some (strtod input), s)

  module _ (num2str : Num → Option Token) (cap : ℕ) where
    -- The separator below the arguments is dropped; an empty stack hands NULL to `strcmp`.
    unfoldable pub finish_func : Option Num × List Token → Outcome (List Token)
    finish_func (none, s) = crash
    finish_func (some result, []) = crash
    finish_func (some result, x ∷ s) =
        on_printed (num2str result) (λ tk. done (push cap tk (if is_separator x then s else x ∷ s)))

    unfoldable pub do_func : List Token → Token → Outcome (List Token)
    unfolding is_separator is_aggregate select apply_func finish_func
    do_func [] f = on_printed (num2str d.nan) (λ tk. fault (push cap tk []))
    do_func (input ∷ s) f =
        if is_lone_separator (input ∷ s)
        then on_printed (num2str d.nan) (λ tk. fault (push cap tk []))
        else if ltb 2 (length (input ∷ s)) && not (is_aggregate f)
        then on_printed (num2str d.nan) (λ tk. fault (push cap tk []))
        else finish_func (apply_func (select f) input s)
