-- ===== src/Calculator/Value.antt =====
-- What a formula of src/calculator.c means: the value that its tokens stand for, with every
-- intermediate result printed as the calculator prints it, and none for a division by zero.
use likwid_bench.Base.{
  suc, ◌+◌, ◌-◌, ◌/◌, Option, none, some, List, [], ◌∷◌, if◌then◌else◌, length, get_elem?,
}
use likwid_bench.Calculator.Chars.{Token}
use likwid_bench.Calculator.Number.{Double}
use likwid_bench.Calculator.Formula.{
  AddOp, MulOp, plus, minus, times, over, modulo, Aggregate, min, max, sum, avg, mean, median, var,
  Sum, Prod, Power, Atom, Args, prod, add, power, mul, atom, raise, num, paren, call, arg, more,
}

abbrev pub and_then {ℓ κ} : {A : Type ℓ} {B : Type κ} → Option A → (A → Option B) → Option B
and_then none f = none
and_then (some a) f = f a

abbrev pub fold {ℓ κ} : {A : Type ℓ} {B : Type κ} → (B → A → B) → B → List A → B
fold body acc [] = acc
fold body acc (x ∷ xs) = fold body (body acc x) xs

abbrev pub append_to {ℓ} : {A : Type ℓ} → List A → List A → List A
append_to [] acc = acc
append_to (x ∷ xs) acc = append_to xs (x ∷ acc)

module _ (d : Double) where
  open d use {Num, strtod, of_count, to_int, sub, div, pow, less, is_zero}

  abbrev pub add_value : AddOp → Num → Num → Num
  add_value plus l r = d.add l r
  add_value minus l r = sub l r

  abbrev pub mul_value : MulOp → Num → Num → Option Num
  mul_value times l r = some (d.mul l r)
  mul_value over l r = if is_zero r then none else some (div l r)
  mul_value modulo l r = if is_zero r then none else some (sub l (d.mul (to_int (div l r)) r))

  -- The arguments of an aggregate, the last one first.
  abbrev pub smallest : Num → List Token → Num
  smallest = fold (λ m x. if less (strtod x) m then strtod x else m)

  abbrev pub largest : Num → List Token → Num
  largest = fold (λ m x. if less m (strtod x) then strtod x else m)

  abbrev pub total : Num → List Token → Num
  total = fold (λ m x. d.add m (strtod x))

  -- Insertion in ascending order, and the sort by it.
  unfoldable pub insert : Token → List Token → List Token
  insert x [] = x ∷ []
  insert x (t ∷ ts) = if less (strtod t) (strtod x) then t ∷ insert x ts else (x ∷ (t ∷ ts))

  abbrev pub sort_onto : List Token → List Token → List Token
  sort_onto = fold (λ ts x. insert x ts)

  -- The lower median: of n sorted arguments the one at position (n + 1) / 2, from 1.
  abbrev pub number_at : Option Token → Option Num
  number_at none = none
  number_at (some x) = some (strtod x)

  abbrev pub lower_median : Token → List Token → Option Num
  lower_median x xs = number_at (get_elem? (sort_onto (x ∷ []) xs) ((suc (length xs) + 1) / 2 - 1))

  abbrev pub mean_of : Token → List Token → Num
  mean_of x xs = div (total (strtod x) xs) (of_count (suc (length xs)))

  -- The sum of the squared differences is taken in the order of the arguments as written.
  abbrev pub variance : Token → List Token → Num
  variance x xs =
      div
        (fold (λ acc y. d.add acc (pow (sub (strtod y) (mean_of x xs)) (of_count 2))) (of_count 0)
          (append_to xs (x ∷ [])))
        (of_count (suc (length xs)))

  unfoldable pub aggregate : Aggregate → Token → List Token → Option Num
  aggregate min x xs = some (smallest (strtod x) xs)
  aggregate max x xs = some (largest (strtod x) xs)
  aggregate sum x xs = some (total (strtod x) xs)
  aggregate avg x xs = some (mean_of x xs)
  aggregate mean x xs = some (mean_of x xs)
  aggregate median x xs = lower_median x xs
  aggregate var x xs = some (variance x xs)

  module _ (num2str : Num → Token) where
    abbrev pub printed : Option Num → Option Token
    printed none = none
    printed (some x) = some (num2str x)

    abbrev pub apply_aggregate : Aggregate → List Token → Option Token
    apply_aggregate f [] = none
    apply_aggregate f (x ∷ xs) = printed (aggregate f x xs)

    unfoldable mutual
      unfolding aggregate

      pub sum_value : Sum → Option Token
      sum_value (prod p) = prod_value p
      sum_value (add s op p) =
          and_then (sum_value s)
            λ l. and_then (prod_value p) λ r. some (num2str (add_value op (strtod l) (strtod r)))

      pub prod_value : Prod → Option Token
      prod_value (power f) = power_value f
      prod_value (mul p op f) =
          and_then (prod_value p)
            λ l. and_then (power_value f) λ r. printed (mul_value op (strtod l) (strtod r))

      pub power_value : Power → Option Token
      power_value (atom a) = atom_value a
      power_value (raise a f) =
          and_then (atom_value a)
            λ l. and_then (power_value f) λ r. some (num2str (pow (strtod l) (strtod r)))

      pub atom_value : Atom → Option Token
      atom_value (num tk is_value) = some tk
      atom_value (paren s) = sum_value s
      atom_value (call f args) = and_then (args_values args) (apply_aggregate f)

      pub args_values : Args → Option (List Token)
      args_values (arg s) = and_then (sum_value s) λ v. some (v ∷ [])
      args_values (more args s) =
          and_then (args_values args) λ vs. and_then (sum_value s) λ v. some (v ∷ vs)
