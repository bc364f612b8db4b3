-- ===== src/Calculator/Aggregates.antt =====
-- `doFunc` of src/calculator.c on the arguments of a call: the loops against plain folds.
use likwid_bench.Base.{
  ℕ, zero, suc, ◌+◌, ◌-◌, ◌/◌, ◌≤◌, ◌<◌, ◌≡◌, refl, ◌∙◌, ap, Bool, true, false, ◌&&◌, some, List,
  [], ◌∷◌, ◌++◌, length, length-append, get_elem?, drop, ltb, lt→ltb, arith, Bool-cases, inl, inr,
}
use likwid_bench.Calculator.Chars.{Token}
use likwid_bench.Calculator.Number.{Double}
use likwid_bench.Calculator.Func.{
  returning, done, push, separator, is_separator, args_loop, insert_sorted, unload, reload, squares,
  top_number, median_of, variance_of, apply_func, select, is_aggregate, do_func, finish_func,
  is_lone_separator, min_step, max_step, sum_step, median_step, var_step, avg_step, tmp_cap, finish,
  median_func, var_func,
}
use likwid_bench.Calculator.Formula.{
  Aggregate, min, max, sum, avg, mean, median, var, aggregate_token,
}
use likwid_bench.Calculator.Value.{
  fold, append_to, insert, aggregate, number_at, sort_onto, total, lower_median, variance,
}

one-add : (n : ℕ) → 1 + n ≡ suc n
one-add n = omega arith

-- No argument is the separator.
abbrev pub Free : List Token → Type 0
Free [] = Unit
Free (x ∷ xs) = (is_separator x ≡ false) × Free xs

-- The loop over the arguments stops at the separator below them.
args_loop-fold {ℓ} :
    {A : Type ℓ} (body : A → Token → A) (acc : A) (xs rest : List Token)
    → Free xs
    → args_loop body acc (xs ++ (separator ∷ rest)) ≡ (fold body acc xs, separator ∷ rest)
unfolding args_loop
args_loop-fold body acc [] rest free = refl
args_loop-fold body acc (x ∷ xs) rest free =
    rw free.0 (args_loop-fold body (body acc x) xs rest free.1)

module _ (d : Double) (degrees : Bool) where
  open d use {Num, strtod, less}

  length-insert : (x : Token) (ts : List Token) → length (insert d x ts) ≡ suc (length ts)
  unfolding insert
  length-insert x [] = refl
  length-insert x (t ∷ ts) = ground (arith, length-insert x ts)

  -- `reload` after `unload` puts the smaller tokens back above the new one.
  reload-unload :
      (cap : ℕ) (x : Token) (tmp safe : List Token)
      → length tmp + length safe < cap
      → (let (tmp', safe') = unload d degrees cap (strtod x) tmp safe in
          reload d degrees cap safe' (push cap x tmp'))
        ≡ reload d degrees cap safe (insert d x tmp)
  unfolding unload reload insert
  reload-unload cap x [] safe room = rw (lt→ltb 0 cap (omega arith))
  reload-unload cap x (t ∷ tmp) safe room = elim (Bool-cases (less (strtod t) (strtod x))) [
    | inl smaller ↦
        rw (smaller, lt→ltb (length safe) cap (omega arith))
          (reload-unload cap x tmp (t ∷ safe) (omega arith)
            ∙ rw (lt→ltb (length (insert d x tmp)) cap (omega (arith, length-insert x tmp))))
    | inr other ↦ rw (other, lt→ltb (suc (length tmp)) cap (omega arith))
  ]

  insert_sorted-insert :
      (cap : ℕ) (x : Token) (tmp : List Token)
      → length tmp < cap
      → insert_sorted d degrees cap tmp x ≡ insert d x tmp
  unfolding insert_sorted
  insert_sorted-insert cap x tmp room = reload-unload cap x tmp [] (omega arith)

  -- The loop of the median sorts the arguments and counts them.
  median_fold :
      (cap : ℕ) (xs tmp : List Token) (counter : ℕ)
      → length tmp + length xs ≤ cap
      → fold (median_step d degrees cap) (tmp, counter) xs
        ≡ (sort_onto d tmp xs, counter + length xs)
  median_fold cap [] tmp counter room = ap (λ k. (tmp, k)) (omega arith)
  median_fold cap (x ∷ xs) tmp counter room = rw (insert_sorted-insert cap x tmp (omega arith)) (
      median_fold cap xs (insert d x tmp) (counter + 1) (omega (arith, length-insert x tmp))
      ∙ ap (λ k. (sort_onto d (insert d x tmp) xs, k)) (omega arith))

  var_fold :
      (cap : ℕ) (xs tmp : List Token) (m : Num) (counter : ℕ)
      → length tmp + length xs ≤ cap
      → fold (var_step d degrees cap) (tmp, m, counter) xs
        ≡ (append_to xs tmp, total d m xs, counter + length xs)
  var_fold cap [] tmp m counter room = ap (λ k. (tmp, m, k)) (omega arith)
  var_fold cap (x ∷ xs) tmp m counter room = rw (lt→ltb (length tmp) cap (omega arith)) (
      var_fold cap xs (x ∷ tmp) (d.add m (strtod x)) (counter + 1) (omega arith)
      ∙ ap (λ k. (append_to xs (x ∷ tmp), total d (d.add m (strtod x)) xs, k)) (omega arith))

  avg_fold :
      (xs : List Token) (result : Num) (counter : ℕ)
      → fold (avg_step d degrees) (result, counter) xs ≡ (total d result xs, counter + length xs)
  avg_fold [] result counter = ap (λ k. (result, k)) (omega arith)
  avg_fold (x ∷ xs) result counter =
      avg_fold xs (d.add result (strtod x)) (counter + 1)
      ∙ ap (λ k. (total d (d.add result (strtod x)) xs, k)) (omega arith)

  squares-fold :
      (m acc : Num) (xs : List Token)
      → squares d degrees m acc xs
        ≡ fold (λ a y. d.add a (d.pow (d.sub (strtod y) m) (d.of_count 2))) acc xs
  unfolding squares
  squares-fold m acc [] = refl
  squares-fold m acc (x ∷ xs) =
      squares-fold m (d.add acc (d.pow (d.sub (strtod x) m) (d.of_count 2))) xs

  top_number-drop :
      (n : ℕ) (xs : List Token) → top_number d degrees (drop n xs) ≡ number_at d (get_elem? xs n)
  top_number-drop zero [] = refl
  top_number-drop zero (x ∷ xs) = refl
  top_number-drop (suc n) [] = refl
  top_number-drop (suc n) (x ∷ xs) = top_number-drop n xs

  -- The two branches with a temporary stack, at any capacity that holds the arguments.
  median_at :
      (cap : ℕ) (x : Token) (xs rest : List Token)
      → Free xs
      → suc (length xs) ≤ cap
      → finish d degrees
          (median_of d degrees)
          (args_loop (median_step d degrees cap) (push cap x [], 1) (xs ++ (separator ∷ rest)))
        ≡ (lower_median d x xs, separator ∷ rest)
  median_at cap x xs rest free room =
      rw
        (
          lt→ltb 0 cap (omega arith),
          args_loop-fold (median_step d degrees cap) (x ∷ [], 1) xs rest free,
          median_fold cap xs (x ∷ []) 1 (omega arith),
        )
        (rw (
          top_number-drop ((1 + length xs + 1) / 2 - 1) (sort_onto d (x ∷ []) xs),
          one-add (length xs),
        ))

  var_at :
      (cap : ℕ) (x : Token) (xs rest : List Token)
      → Free xs
      → suc (length xs) ≤ cap
      → finish d degrees
          (λ acc. some (variance_of d degrees acc))
          (args_loop
            (var_step d degrees cap)
            (push cap x [], strtod x, 1)
            (xs ++ (separator ∷ rest)))
        ≡ (some (variance d x xs), separator ∷ rest)
  unfolding variance_of
  var_at cap x xs rest free room =
      rw
        (
          lt→ltb 0 cap (omega arith),
          args_loop-fold (var_step d degrees cap) (x ∷ [], strtod x, 1) xs rest free,
          var_fold cap xs (x ∷ []) (strtod x) 1 (omega arith),
        )
        (rw (one-add (length xs)) (
          ap (λ t. (some (d.div t (d.of_count (suc (length xs)))), separator ∷ rest))
            (squares-fold (d.div (total d (strtod x) xs) (d.of_count (suc (length xs))))
              (d.of_count 0) (append_to xs (x ∷ [])))))

  tmp_cap_room :
      (xs rest : List Token) → suc (length xs) ≤ tmp_cap d degrees (xs ++ (separator ∷ rest))
  tmp_cap_room xs rest = ground (arith, length-append xs (separator ∷ rest))

  median_lem :
      (x : Token) (xs rest : List Token)
      → Free xs
      → apply_func d degrees median_func x (xs ++ (separator ∷ rest))
        ≡ (lower_median d x xs, separator ∷ rest)
  unfolding apply_func
  median_lem x xs rest free =
      median_at (tmp_cap d degrees (xs ++ (separator ∷ rest))) x xs rest free (tmp_cap_room xs rest)

  var_lem :
      (x : Token) (xs rest : List Token)
      → Free xs
      → apply_func d degrees var_func x (xs ++ (separator ∷ rest))
        ≡ (some (variance d x xs), separator ∷ rest)
  unfolding apply_func
  var_lem x xs rest free =
      var_at (tmp_cap d degrees (xs ++ (separator ∷ rest))) x xs rest free (tmp_cap_room xs rest)

  -- The number that the branch of an aggregate computes, and the stack that it leaves.
  aggregate_lem :
      (f : Aggregate) (x : Token) (xs rest : List Token)
      → Free xs
      → apply_func d degrees (select (aggregate_token f)) x (xs ++ (separator ∷ rest))
        ≡ (aggregate d f x xs, separator ∷ rest)
  unfolding apply_func select aggregate
  aggregate_lem min x xs rest free =
      rw (args_loop-fold (min_step d degrees) (strtod x) xs rest free)
  aggregate_lem max x xs rest free =
      rw (args_loop-fold (max_step d degrees) (strtod x) xs rest free)
  aggregate_lem sum x xs rest free =
      rw (args_loop-fold (sum_step d degrees) (strtod x) xs rest free)
  aggregate_lem avg x xs rest free =
      rw (args_loop-fold (avg_step d degrees) (strtod x, 1) xs rest free, avg_fold xs (strtod x) 1)
        (ap (λ k. (some (d.div (total d (strtod x) xs) (d.of_count k)), separator ∷ rest))
          (omega arith))
  aggregate_lem mean x xs rest free =
      rw (args_loop-fold (avg_step d degrees) (strtod x, 1) xs rest free, avg_fold xs (strtod x) 1)
        (ap (λ k. (some (d.div (total d (strtod x) xs) (d.of_count k)), separator ∷ rest))
          (omega arith))
  aggregate_lem median x xs rest free = median_lem x xs rest free
  aggregate_lem var x xs rest free = var_lem x xs rest free

  length-sort_onto : (ts xs : List Token) → length (sort_onto d ts xs) ≡ length ts + length xs
  length-sort_onto ts [] = omega arith
  length-sort_onto ts (x ∷ xs) =
      omega (arith, length-sort_onto (insert d x ts) xs, length-insert x ts)

  number_at-some :
      (ts : List Token) (n : ℕ)
      → n < length ts
      → (r : Num) × (number_at d (get_elem? ts n) ≡ some r)
  number_at-some [] n h = elim h [ ]
  number_at-some (t ∷ ts) zero h = (strtod t, refl)
  number_at-some (t ∷ ts) (suc n) h = number_at-some ts n (omega arith)

  -- Every aggregate of at least one argument has a value.
  pub aggregate-some :
      (f : Aggregate) (x : Token) (xs : List Token) → (r : Num) × (aggregate d f x xs ≡ some r)
  unfolding aggregate
  aggregate-some min x xs = (_, refl)
  aggregate-some max x xs = (_, refl)
  aggregate-some sum x xs = (_, refl)
  aggregate-some avg x xs = (_, refl)
  aggregate-some mean x xs = (_, refl)
  aggregate-some median x xs =
      number_at-some (sort_onto d (x ∷ []) xs) ((suc (length xs) + 1) / 2 - 1)
        (omega (arith, length-sort_onto (x ∷ []) xs))
  aggregate-some var x xs = (_, refl)

  is_aggregate_token : (f : Aggregate) → is_aggregate (aggregate_token f) ≡ true
  unfolding is_aggregate
  is_aggregate_token min = refl
  is_aggregate_token max = refl
  is_aggregate_token sum = refl
  is_aggregate_token avg = refl
  is_aggregate_token mean = refl
  is_aggregate_token median = refl
  is_aggregate_token var = refl

  not_lone :
      (x : Token) (xs rest : List Token)
      → is_lone_separator (x ∷ (xs ++ (separator ∷ rest))) ≡ false
  not_lone x [] rest = refl
  not_lone x (y ∷ xs) rest = refl

  and-false : (b : Bool) → (b && false) ≡ false
  and-false true = refl
  and-false false = refl

  -- doFunc, for min, max, sum, avg, mean, median or var on a stack of at least one argument above
  -- the separator, takes the arguments and the separator off the stack and pushes the aggregate of the
  -- arguments, printed: a fold over them, or for the median their lower middle element in ascending
  -- order. No argument may be the separator, the stack below must have room, and the printing of
  -- numbers must return.
  pub do_func-aggregate :
      (num2str : Num → Token) (cap : ℕ) (f : Aggregate) (x : Token) (xs rest : List Token) (r : Num)
      → Free xs
      → length rest < cap
      → aggregate d f x xs ≡ some r
      → do_func d degrees
          (returning num2str)
          cap
          (x ∷ (xs ++ (separator ∷ rest)))
          (aggregate_token f)
        ≡ done (num2str r ∷ rest)
  unfolding do_func finish_func is_separator
  do_func-aggregate num2str cap f x xs rest r free room e =
      rw
        (
          not_lone x xs rest,
          is_aggregate_token f,
          and-false (ltb 2 (suc (length (xs ++ (separator ∷ rest))))),
        )
        (rw (aggregate_lem f x xs rest free, e, lt→ltb (length rest) cap room))
