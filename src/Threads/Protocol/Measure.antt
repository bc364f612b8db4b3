-- ===== src/Threads/Protocol/Measure.antt =====
-- The steps that the workers of src/threads.c have still to do, as a number that each step lowers.
use mathlib.Core.Path.{subst}
use likwid_bench.Base.{
  ℕ, zero, suc, ◌+◌, ◌≤◌, ◌<◌, ◌≡◌, refl, sym, ap, ap₂, Bool, true, List, [], ◌∷◌, length, ◌==◌,
  ==→eq, ==→ne, if◌then◌else◌, arith, Bool-cases, inl, inr,
}
use likwid_bench.Threads.Protocol.{
  Command, exit, noop, initialize, run, verify, Pc, idle, serve, running, finishing, at_barrier,
  leaving, last_signal, last_barrier, gone, run_waits, System, Move, initialized, nothing, started,
  ran, signalled, told, invalid, signed_off, waiting, after,
}
use likwid_bench.Threads.Protocol.Changes.{
  pending, Local, took, moved, Change, sent, worked, opened,
}
use likwid_bench.Threads.Protocol.Waits.{exits}

-- The steps that serve a command which does not end the worker, after it has been taken.
unfoldable pub command_steps : ℕ → Command → ℕ
command_steps r run = run_waits r + 4
command_steps r other = 3

unfoldable pub plan_steps : ℕ → List Command → ℕ
plan_steps r [] = 0
plan_steps r (c ∷ p) =
    let rest = plan_steps r p in if exits c then 5 else suc (command_steps r c + rest)

-- The steps of a worker, its waits among them.
unfoldable pub steps : ℕ → Pc → List Command → ℕ
steps r idle p = plan_steps r p
steps r (serve c) p = if exits c then 4 else command_steps r c + plan_steps r p
steps r (running k) p = k + 3 + plan_steps r p
steps r finishing p = 2 + plan_steps r p
steps r at_barrier p = 1 + plan_steps r p
steps r leaving p = 3
steps r last_signal p = 2
steps r last_barrier p = 1
steps r gone p = 0

Move-steps :
    (r : ℕ) {pc pc' : Pc} {d d' : Bool} (p : List Command)
    → Move r pc d pc' d'
    → suc (steps r pc' p) ≡ steps r pc p
unfolding steps plan_steps exits command_steps
Move-steps r p initialized = omega arith
Move-steps r p nothing = omega arith
Move-steps r p started = omega arith
Move-steps r p ran = omega arith
Move-steps r p signalled = omega arith
Move-steps r p told = refl
Move-steps r p invalid = refl
Move-steps r p signed_off = refl

took-steps :
    (r : ℕ) (c : Command) (p : List Command) → suc (steps r (serve c) p) ≡ steps r idle (c ∷ p)
unfolding steps plan_steps exits command_steps
took-steps r exit p = refl
took-steps r noop p = omega arith
took-steps r initialize p = omega arith
took-steps r run p = omega arith
took-steps r verify p = refl

Local-steps :
    (r : ℕ) {pc pc' : Pc} {p p' : List Command}
    → Local r pc p pc' p'
    → suc (steps r pc' p') ≡ steps r pc p
Local-steps r (took c p) = took-steps r c p
Local-steps r (moved p m) = Move-steps r p m

after-steps :
    (r : ℕ) (pc : Pc) (p : List Command)
    → waiting pc ≡ true
    → suc (steps r (after pc) p) ≡ steps r pc p
unfolding steps waiting after
after-steps r idle p h = cc
after-steps r (serve c) p h = cc
after-steps r (running zero) p h = cc
after-steps r (running (suc k)) p h = omega arith
after-steps r finishing p h = cc
after-steps r at_barrier p h = omega arith
after-steps r leaving p h = refl
after-steps r last_signal p h = cc
after-steps r last_barrier p h = refl
after-steps r gone p h = cc

-- A sum over the workers below a bound.
pub total : ℕ → (ℕ → ℕ) → ℕ
total zero f = 0
total (suc n) f = total n f + f n

total-le : (n : ℕ) (f g : ℕ → ℕ) → ((i : ℕ) → i < n → f i ≤ g i) → total n f ≤ total n g
unfolding total
total-le zero f g h = omega arith
total-le (suc n) f g h =
    omega (arith, h n (omega arith), total-le n f g (λ i lt. h i (omega arith)))

total-lt :
    (n : ℕ) (f g : ℕ → ℕ)
    → ((i : ℕ) → i < n → f i ≤ g i)
    → (j : ℕ) → j < n
    → f j < g j
    → total n f < total n g
unfolding total
total-lt zero f g h j lt less = absurd (omega arith)
total-lt (suc n) f g h j lt less = elim (Bool-cases (j == n)) [
  | inl last ↦
      let e = ==→eq j n last in
      omega (arith, subst (λ m. f m < g m) e less, total-le n f g (λ i lt'. h i (omega arith)))
  | inr below ↦ omega (
    arith,
    h n (omega arith),
    total-lt n f g (λ i lt'. h i (omega arith)) j (omega (arith, ==→ne j n below)) less,
  )
]

abbrev pub steps_of : (ℕ → ℕ) → System → ℕ → ℕ
steps_of rounds s i = steps (rounds i) (s.pc i) (pending s i)

-- The commands to send, and the steps of all the workers.
abbrev pub measure : ℕ → (ℕ → ℕ) → System → ℕ
measure n rounds s = length s.script + total n (steps_of rounds s)

pub Change-measure :
    (n : ℕ) (rounds : ℕ → ℕ) (s t : System)
    → 0 < n
    → Change n rounds s t
    → measure n rounds t < measure n rounds s
Change-measure n rounds s t pos (sent fewer met same) = omega (
  arith,
  fewer,
  total-le n (steps_of rounds t) (steps_of rounds s)
      (λ i lt. omega (arith, ap₂ (steps (rounds i)) (same i).0 (same i).1)),
)
Change-measure n rounds s t pos (worked j ltj script met local same) = omega (
  arith,
  ap length script,
  total-lt n (steps_of rounds t) (steps_of rounds s)
      (λ i lt. elim (Bool-cases (i == j)) [
        | inl self ↦
            subst (λ m. steps_of rounds t m ≤ steps_of rounds s m) (sym (==→eq i j self))
              (omega (arith, Local-steps (rounds j) local))
        | inr other ↦ omega (
          arith,
          ap₂ (steps (rounds i)) (same i (==→ne i j other)).0 (same i (==→ne i j other)).1,
        )
      ])
      j ltj (omega (arith, Local-steps (rounds j) local)),
)
Change-measure n rounds s t pos (opened script met all onward same) =
    let fewer : (i : ℕ) → i < n → steps_of rounds t i < steps_of rounds s i = λ i lt. omega (
      arith,
      ap₂ (steps (rounds i)) (onward i lt) (same i),
      after-steps (rounds i) (s.pc i) (pending s i) (all i lt),
    ) in
    omega (
      arith,
      ap length script,
      total-lt n (steps_of rounds t) (steps_of rounds s) (λ i lt. omega (arith, fewer i lt)) 0 pos
          (fewer 0 pos),
    )
