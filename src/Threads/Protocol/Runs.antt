-- ===== src/Threads/Protocol/Runs.antt =====
-- Whole runs of the workers of src/threads.c, from the first command of likwid-bench.c on.
use likwid_bench.Base.{
  ℕ, zero, suc, ◌+◌, ◌-◌, ◌≤◌, ◌<◌, ◌≡◌, refl, ◌∙◌, ap, ap₂, true, false, ◌⊎◌, inl, inr, List, [],
  ◌∷◌, ◌++◌, ◌==◌, ==→eq, ==→ne, arith, Bool-cases,
}
use likwid_bench.Threads.Protocol.{
  Command, exit, initialize, run, gone, run_waits, System, Reach, here, next, to_all, created,
}
use likwid_bench.Threads.Protocol.Changes.{pending, todo, Step-Change}
use likwid_bench.Threads.Protocol.Waits.{exits, command_waits, plan_waits, left, waits, Reach-waits}
use likwid_bench.Threads.Protocol.Measure.{measure, Change-measure}
use likwid_bench.Threads.Protocol.Progress.{ends, will_end, Change-will_end, CanStep, level-CanStep}

todo-append : (i : ℕ) (xs ys : List (ℕ × Command)) → todo i (xs ++ ys) ≡ todo i xs ++ todo i ys
unfolding todo
todo-append i [] ys = refl
todo-append i ((j, c) ∷ xs) ys = elim (Bool-cases (j == i)) [
  | inl self ↦ rw (self, todo) (ap (◌∷◌ c) (todo-append i xs ys))
  | inr other ↦ rw (other, todo) (todo-append i xs ys)
]

todo_none : (n i : ℕ) (c : Command) → n ≤ i → todo i (to_all n c) ≡ []
unfolding todo to_all
todo_none zero i c le = refl
todo_none (suc n) i c le =
    let other : (n == i) ≡ false = ground arith in
    todo-append i (to_all n c) ((n, c) ∷ []) ∙ rw (other, todo_none n i c (omega arith)) refl

todo-to_all : (n i : ℕ) (c : Command) → i < n → todo i (to_all n c) ≡ c ∷ []
unfolding todo to_all
todo-to_all zero i c lt = absurd (omega arith)
todo-to_all (suc n) i c lt = todo-append i (to_all n c) ((n, c) ∷ []) ∙ elim (Bool-cases (n == i)) [
  | inl self ↦ rw (self, todo_none n i c (omega (arith, ==→eq n i self))) refl
  | inr other ↦ rw (other, todo-to_all n i c (omega (arith, ==→ne n i other))) refl
]

-- Each worker gets three commands.
pub pending-created : (n i : ℕ) → i < n → pending (created n) i ≡ initialize ∷ run ∷ exit ∷ []
unfolding created
pending-created n i lt =
    todo-append i (to_all n initialize ++ to_all n run) (to_all n exit)
    ∙ ap₂ ◌++◌
        (todo-append i (to_all n initialize) (to_all n run)
          ∙ ap₂ ◌++◌ (todo-to_all n i initialize lt) (todo-to_all n i run lt))
        (todo-to_all n i exit lt)

waits-created :
    (n : ℕ) (rounds : ℕ → ℕ) (i : ℕ) → i < n → waits rounds (created n) i ≡ run_waits (rounds i) + 4
unfolding left plan_waits command_waits exits created
waits-created n rounds i lt = rw (pending-created n i lt) (omega arith)

Reach-will_end :
    {n : ℕ} {rounds : ℕ → ℕ} {s : System} {k : ℕ}
    → Reach n rounds false (created n) k s
    → (i : ℕ) → i < n
    → will_end (s.pc i) (pending s i) ≡ true
unfolding will_end ends exits created
Reach-will_end {n} here i lt = rw (pending-created n i lt) refl
Reach-will_end {n} {rounds} (next {s} {t} r st) i lt =
    Change-will_end n rounds s t (Step-Change st) i lt ∙ Reach-will_end r i lt

Reach-measure :
    {n : ℕ} {rounds : ℕ → ℕ} {s : System} {k : ℕ}
    → 0 < n
    → Reach n rounds false (created n) k s
    → k + measure n rounds s ≤ measure n rounds (created n)
Reach-measure pos here = omega arith
Reach-measure {n} {rounds} pos (next {s} {t} r st) =
    omega (arith, Reach-measure pos r, Change-measure n rounds s t pos (Step-Change st))

-- If all the workers of a group have ended, any two have made the same number of rounds in the
-- timing loop of their benchmark, if no wait for a command times out.
pub joined-rounds :
    {n : ℕ} {rounds : ℕ → ℕ} {s : System} {k : ℕ}
    → Reach n rounds false (created n) k s
    → ((i : ℕ) → i < n → s.pc i ≡ gone)
    → (i j : ℕ) → i < n
    → j < n
    → rounds i ≡ rounds j
unfolding left
joined-rounds {n} {rounds} {s} r all i j lti ltj =
    let met : (m : ℕ) → m < n → s.met ≡ run_waits (rounds m) + 4 = λ m lt. omega (
      arith,
      ap (λ pc. left (rounds m) pc (pending s m)) (all m lt),
      Reach-waits r m lt,
      waits-created n rounds m lt,
    ) in
    omega (arith, met i lti, met j ltj)

-- The waits that are left are the same for all, if the rounds are.
left-level :
    {n : ℕ} {rounds : ℕ → ℕ} {s : System} {k : ℕ}
    → Reach n rounds false (created n) k s
    → (m : ℕ) → ((i : ℕ) → i < n → rounds i ≡ m)
    → (i : ℕ) → i < n
    → left (rounds i) (s.pc i) (pending s i) ≡ run_waits m + 4 - s.met
left-level {n} {rounds} r m same i lt =
    omega (arith, Reach-waits r i lt, waits-created n rounds i lt, same i lt)

-- If all the workers of a group make the same number of rounds in their timing loops and no wait
-- for a command times out, a run has at most as many steps as there are commands to send and steps
-- of the workers to do at the start, and a state in which the run cannot go on has all the workers
-- at their end.
pub Reach-ends :
    {n : ℕ} {rounds : ℕ → ℕ} {s : System} {k : ℕ}
    → 0 < n
    → Reach n rounds false (created n) k s
    → (m : ℕ) → ((i : ℕ) → i < n → rounds i ≡ m)
    → (k ≤ measure n rounds (created n)) × (CanStep n rounds s ⊎ ((i : ℕ) → i < n → s.pc i ≡ gone))
Reach-ends {n} {rounds} {s} pos r m same = (
  omega (arith, Reach-measure pos r),
  level-CanStep n rounds s (run_waits m + 4 - s.met) pos (Reach-will_end r) (left-level r m same),
)
