-- ===== src/Bench/Doubling.antt =====
-- The rounds of the timing loops of src/bench.c.
use native.Mathlib.Nat.{mod-eq_of_lt}
use likwid_bench.Base.{
  ℕ, zero, suc, ◌+◌, ◌*◌, ◌%◌, ◌≤◌, ◌<◌, ◌≡◌, refl, ◌∙◌, ap, Bool, true, false, some, ◌==◌, arith,
  Bool-cases, ==→eq, ==→ne, inl, inr, if◌then◌else◌,
}
use likwid_bench.Bench.{min_iterations, word, shift, Timed, time_loop, measure_iters, run_benchmark}

zero_of_le : (a : ℕ) → a ≤ 0 → a ≡ 0
zero_of_le a le = omega arith

double : (a : ℕ) → a * 2 ≡ 2 * a
double a = omega arith

-- The calls of a round.
unfoldable pub calls : ℕ → ℕ
calls zero = min_iterations
calls (suc round) = 2 * calls round

calls-le : (a b : ℕ) → a ≤ b → calls a ≤ calls b
unfolding calls
calls-le a zero le = rw (zero_of_le a le) (omega arith)
calls-le a (suc b) le = elim (Bool-cases (a == suc b)) [
  | inl same ↦ rw (==→eq a (suc b) same) (omega arith)
  | inr below ↦ omega (arith, calls-le a b (omega (arith, ==→ne a (suc b) below)))
]

last-lt_word : calls 60 < word
unfolding calls
last-lt_word = omega arith

-- No round up to the sixty-first wraps.
calls-lt_word : (r : ℕ) → r ≤ 60 → calls r < word
calls-lt_word r le = omega (arith, calls-le r 60 le, last-lt_word)

shift-calls : (r : ℕ) → suc r ≤ 60 → shift (calls r) ≡ calls (suc r)
unfolding shift calls
shift-calls r le = ap (λ m. m % word) (double (calls r)) ∙ mod-eq_of_lt (calls-lt_word (suc r) le)

-- The first round that takes long enough, of those from `round` on.
pub record First (elapsed : (round iter : ℕ) → ℕ) (below : ℕ → Bool) (from r : ℕ) : Type 0 where
  pub least : from ≤ r
  pub enough : below (elapsed r (calls r)) ≡ false
  pub short : (q : ℕ) → from ≤ q → q < r → below (elapsed q (calls q)) ≡ true

module _ (elapsed : (round iter : ℕ) → ℕ) (below : ℕ → Bool) where
  abbrev timed : ℕ → Timed
  timed r = record { iter = calls r; doubled = false; rounds = suc r }

  time_loop-First :
      (fuel round d last : ℕ)
      → d < fuel
      → round + d ≡ last
      → last ≤ 60
      → below (elapsed last (calls last)) ≡ false
      → (r : ℕ) × (time_loop elapsed below fuel round (calls round) ≡ some (timed r))
        × First elapsed below round r
        × (r ≤ last)
  unfolding time_loop
  time_loop-First zero round d last lt at le long = absurd (omega arith)
  time_loop-First (suc fuel) round zero last lt at le long =
      let e : last ≡ round = omega arith in
      let enough : below (elapsed round (calls round)) ≡ false = rw e at long in
      (
        round,
        rw (enough, time_loop) refl,
        record { least = omega arith; enough = enough; short = λ q ge lt'. absurd (omega arith) },
        omega arith,
      )
  time_loop-First (suc fuel) round (suc d) last lt at le long =
      elim (Bool-cases (below (elapsed round (calls round)))) [
        | inl short ↦
            let (r, loops, first, bound) =
              time_loop-First fuel (suc round) d last (omega arith) (omega arith) le long in
            (
              r,
              rw (short, shift-calls round (omega arith), time_loop) loops,
              record {
                least = omega (arith, first.least);
                enough = first.enough;
                short = λ q ge lt'. elim (Bool-cases (q == round)) [
                  | inl same ↦ rw (==→eq q round same) short
                  | inr later ↦ first.short q (omega (arith, ==→ne q round later)) lt'
                ];
              },
              bound,
            )
        | inr enough ↦ (
          round,
          rw (enough, time_loop) refl,
          record { least = omega arith; enough = enough; short = λ q ge lt'. absurd (omega arith) },
          omega arith,
        )
      ]

-- If a round from the first to the sixty-first takes the runtime that is asked for, the timing loop
-- ends within sixty-one rounds, at the first round that does: each round makes twice the calls of
-- the one before, from ten on and without a wrap. The kernel then runs for the iterations of that
-- round, or for those that are given, if they are not zero.
pub run_benchmark-First :
    (elapsed : (round iter : ℕ) → ℕ) (below below_min : ℕ → Bool) (last iters : ℕ)
    → last ≤ 60
    → below (elapsed last (calls last)) ≡ false
    → below_min (elapsed last (calls last)) ≡ false
    → (r : ℕ) × (r ≤ last)
      × First elapsed (if iters == 0 then below else below_min) 0 r
      × (run_benchmark elapsed below below_min 61 iters
          ≡ some ((if iters == 0 then calls r else iters), suc r))
unfolding run_benchmark measure_iters calls
run_benchmark-First elapsed below below_min last iters le long long_min =
    elim (Bool-cases (iters == 0)) [
      | inl measured ↦
          let (r, loops, first, bound) =
            time_loop-First elapsed below 61 0 last last (omega arith) (omega arith) le long in
          (r, bound, rw measured first, rw (measured, loops, run_benchmark, measure_iters) refl)
      | inr given ↦
          let (r, loops, first, bound) =
            time_loop-First elapsed below_min 61 0 last last (omega arith) (omega arith) le
              long_min in
          (r, bound, rw given first, rw (given, loops, run_benchmark, measure_iters) refl)
    ]
