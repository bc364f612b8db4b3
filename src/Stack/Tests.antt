-- ===== src/Stack/Tests.antt =====
-- Runs of the model of src/stack.c, and the theorems of `Refine` at concrete stacks.
use likwid_bench.Base.{
  ℕ, ◌≡◌, refl, none, some, List, [], ◌∷◌, arith, ok, err, einval, enobufs, replicate,
}
use likwid_bench.Stack.{Stack, Malloc, push, pop, top, size, free}
use likwid_bench.Stack.Spec
use likwid_bench.Stack.Spec.{
  Lifo, Op, Reply, push_op, pop_op, top_op, size_op, free_op, status, value, count, void,
}
use likwid_bench.Stack.Refine.{run, Represents, run_refines}

abbrev zeroed : Malloc ℕ
zeroed n = some (replicate n (some 0))

abbrev pair : Stack ℕ
pair = record { content = some (some 4 ∷ some 5 ∷ some 0 ∷ []); size = 3; depth = 2 }

abbrev pair_items : Lifo ℕ
pair_items = record { items = 5 ∷ 4 ∷ []; cap = 3 }

pair-Represents : Represents pair pair_items
pair-Represents = record {
  cap = refl;
  depth = refl;
  fits = omega arith;
  slots = (refl, (refl, (refl, tt)));
}

abbrev calls : List (Op ℕ)
calls =
    push_op none
    ∷ push_op (some 6)
    ∷ push_op (some 7)
    ∷ pop_op
    ∷ top_op
    ∷ size_op
    ∷ free_op
    ∷ pop_op
    ∷ []

abbrev replies : List (Reply ℕ)
replies =
    status (err einval)
    ∷ status (ok tt)
    ∷ status (err enobufs)
    ∷ value (some 6)
    ∷ value (some 5)
    ∷ count 2
    ∷ void
    ∷ value none
    ∷ []

run-pair : run (some pair) calls ≡ replies
unfolding run push pop top size free
run-pair = refl

run_refines_example : run (some pair) calls ≡ Spec.run pair_items calls
run_refines_example = run_refines calls pair pair_items pair-Represents
