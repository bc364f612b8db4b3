-- ===== src/Bench.antt =====
-- src/bench.c: the timing loops `MEASURE` and `WARMUP` of `run_benchmark`, and what they set.
pub mod Doubling
mod Tests
use likwid_bench.Base.{
  ℕ, zero, suc, ◌+◌, ◌*◌, ◌/◌, ◌%◌, ◌^◌, Bool, true, false, Option, none, some, ◌==◌, if◌then◌else◌,
}

-- `MIN_ITERATIONS` of include/thread_group.h
abbrev pub min_iterations : ℕ
min_iterations = 10

abbrev pub word : ℕ
word = 2 ^ 64

-- `size_t iter` after `iter <<= 1`
unfoldable pub shift : ℕ → ℕ
shift iter = iter * 2 % word

-- What a timing loop leaves: `iter`, `doubled`, and how many rounds it made.
pub record Timed : Type 0 where
  pub iter : ℕ
  pub doubled : Bool
  pub rounds : ℕ

module _ (elapsed : (round iter : ℕ) → ℕ) (below : ℕ → Bool) where
  -- The `do … while` on fuel. `elapsed` is the time in nanoseconds that a round of `iter` calls
  -- takes, and `below` compares it, as a number of seconds, with the runtime that is asked for.
  unfoldable pub time_loop : (fuel round iter : ℕ) → Option Timed
  unfolding shift
  time_loop zero round iter = none
  time_loop (suc fuel) round iter =
      let runtime = elapsed round iter in
      elim (below runtime) [
        | true ↦ time_loop fuel (suc round) (shift iter)
        | false ↦ some (record { iter = iter; doubled = false; rounds = suc round })
      ]

  -- `if (doubled) iter >>= 1`
  abbrev pub settle : Timed → Timed
  settle t = if t.doubled then record t { iter = t.iter / 2 } else t

  -- `MEASURE`, whose `iter` becomes `myData->iters`.
  unfoldable pub measure_iters : (fuel : ℕ) → Option Timed
  unfolding time_loop
  measure_iters fuel = elim (time_loop fuel 0 min_iterations) [
    | none ↦ none
    | some t ↦ some (settle t)
  ]

-- `run_benchmark`, as the iterations that the kernel runs for in `EXECUTE`, and the rounds of the
-- loop before it: with no iterations given it measures them, and else it only warms up, for
-- `MIN_RUNTIME`.
module _ (elapsed : (round iter : ℕ) → ℕ) (below below_min : ℕ → Bool) where
  unfoldable pub run_benchmark : (fuel iters : ℕ) → Option (ℕ × ℕ)
  unfolding measure_iters
  run_benchmark fuel iters =
      if iters == 0
      then (elim (measure_iters elapsed below fuel) [
        | none ↦ none
        | some t ↦ some (t.iter, t.rounds)
      ])
      else (elim (measure_iters elapsed below_min fuel) [
        | none ↦ none
        | some t ↦ some (iters, t.rounds)
      ])
