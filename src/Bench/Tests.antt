-- ===== src/Bench/Tests.antt =====
-- Runs of the timing loops of src/bench.c, and the property at a concrete input.
use likwid_bench.Base.{ℕ, suc, ◌*◌, ◌≤◌, ◌≡◌, refl, Bool, some, ltb, ◌==◌, if◌then◌else◌, arith}
use likwid_bench.Bench.{shift, time_loop, measure_iters, run_benchmark}
use likwid_bench.Bench.Doubling.{calls, First, run_benchmark-First}

-- A hundred nanoseconds for each call.
abbrev steady : (round iter : ℕ) → ℕ
steady round iter = 100 * iter

-- Less than ten microseconds.
abbrev short : ℕ → Bool
short runtime = ltb runtime 10000

measured : run_benchmark steady short short 61 0 ≡ some (160, 5)
unfolding run_benchmark measure_iters time_loop shift
measured = refl

given : run_benchmark steady short short 61 7 ≡ some (7, 5)
unfolding run_benchmark measure_iters time_loop shift
given = refl

run_benchmark-First_example :
    (r : ℕ) × (r ≤ 4)
    × First steady (if 0 == 0 then short else short) 0 r
    × (run_benchmark steady short short 61 0 ≡ some ((if 0 == 0 then calls r else 0), suc r))
unfolding calls
run_benchmark-First_example = run_benchmark-First steady short short 4 0 (omega arith) refl refl
