-- ===== src/Threads/Protocol/Waits.antt =====
-- The waits at the barrier that a worker of src/threads.c has still to do.
use mathlib.Core.Path.{subst}
use likwid_bench.Base.{
  ℕ, zero, suc, ◌+◌, ◌<◌, ◌≡◌, refl, sym, ◌∙◌, ap₂, Bool, true, false, List, [], ◌∷◌, ◌==◌, ==→eq,
  ==→ne, if◌then◌else◌, arith, Bool-cases, inl, inr,
}
use likwid_bench.Threads.Protocol.{
  Command, exit, run, verify, Pc, idle, serve, running, finishing, at_barrier, leaving, last_signal,
  last_barrier, gone, run_waits, System, Move, initialized, nothing, started, ran, signalled, told,
  invalid, signed_off, waiting, after, Reach, here, next,
}
use likwid_bench.Threads.Protocol.Changes.{
  pending, Local, took, moved, Change, sent, worked, opened, Step-Change,
}

unfoldable pub exits : Command → Bool
exits exit = true
exits verify = true
exits other = false

-- The waits for one command that does not end the worker.
unfoldable pub command_waits : ℕ → Command → ℕ
command_waits r run = run_waits r + 1
command_waits r other = 1

-- The waits for the commands to come; the one that ends the worker costs two.
unfoldable pub plan_waits : ℕ → List Command → ℕ
plan_waits r [] = 0
plan_waits r (c ∷ p) = let rest = plan_waits r p in if exits c then 2 else command_waits r c + rest

unfoldable pub left : ℕ → Pc → List Command → ℕ
left r idle p = plan_waits r p
left r (serve c) p = plan_waits r (c ∷ p)
left r (running k) p = k + 1 + plan_waits r p
left r finishing p = 1 + plan_waits r p
left r at_barrier p = 1 + plan_waits r p
left r leaving p = 2
left r last_signal p = 1
left r last_barrier p = 1
left r gone p = 0

Move-left :
    (r : ℕ) {pc pc' : Pc} {d d' : Bool} (p : List Command)
    → Move r pc d pc' d'
    → left r pc' p ≡ left r pc p
unfolding left plan_waits exits command_waits
Move-left r p initialized = refl
Move-left r p nothing = refl
Move-left r p started = refl
Move-left r p ran = refl
Move-left r p signalled = refl
Move-left r p told = refl
Move-left r p invalid = refl
Move-left r p signed_off = refl

Local-left :
    (r : ℕ) {pc pc' : Pc} {p p' : List Command} → Local r pc p pc' p' → left r pc' p' ≡ left r pc p
unfolding left
Local-left r (took c p) = refl
Local-left r (moved p m) = Move-left r p m

pub after-left :
    (r : ℕ) (pc : Pc) (p : List Command)
    → waiting pc ≡ true
    → suc (left r (after pc) p) ≡ left r pc p
unfolding left waiting after
after-left r idle p h = cc
after-left r (serve c) p h = cc
after-left r (running zero) p h = cc
after-left r (running (suc k)) p h = omega arith
after-left r finishing p h = cc
after-left r at_barrier p h = omega arith
after-left r leaving p h = refl
after-left r last_signal p h = cc
after-left r last_barrier p h = refl
after-left r gone p h = cc

-- All the waits of a worker of the group: those that are done, and those to come.
abbrev pub waits : (ℕ → ℕ) → System → ℕ → ℕ
waits rounds s i = s.met + left (rounds i) (s.pc i) (pending s i)

Change-waits :
    (n : ℕ) (rounds : ℕ → ℕ) (s t : System)
    → Change n rounds s t
    → (i : ℕ) → i < n
    → waits rounds t i ≡ waits rounds s i
Change-waits n rounds s t (sent fewer met same) i lt =
    ap₂ ◌+◌ met (ap₂ (left (rounds i)) (same i).0 (same i).1)
Change-waits n rounds s t (worked j ltj script met local same) i lt = elim (Bool-cases (i == j)) [
  | inl self ↦ ap₂ ◌+◌ met (
      subst (λ m. left (rounds m) (t.pc m) (pending t m) ≡ left (rounds m) (s.pc m) (pending s m))
        (sym (==→eq i j self)) (Local-left (rounds j) local))
  | inr other ↦
      let (at, plan) = same i (==→ne i j other) in ap₂ ◌+◌ met (ap₂ (left (rounds i)) at plan)
]
Change-waits n rounds s t (opened script met all onward same) i lt = omega (
  arith,
  met,
  ap₂ (left (rounds i)) (onward i lt) (same i),
  after-left (rounds i) (s.pc i) (pending s i) (all i lt),
)

pub Reach-waits :
    {n : ℕ} {rounds : ℕ → ℕ} {start s : System} {k : ℕ}
    → Reach n rounds false start k s
    → (i : ℕ) → i < n
    → waits rounds s i ≡ waits rounds start i
Reach-waits here i lt = refl
Reach-waits {n} {rounds} (next {s} {t} r st) i lt =
    Change-waits n rounds s t (Step-Change st) i lt ∙ Reach-waits r i lt
