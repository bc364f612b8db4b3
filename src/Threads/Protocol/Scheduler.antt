-- ===== src/Threads/Protocol/Scheduler.antt =====
-- Runs of the workers of src/threads.c by evaluation: the main thread sends what it can, then the
-- first worker that can does a step, and the barrier opens when no worker can.
use likwid_bench.Base.{
  ℕ, zero, suc, ◌<◌, ◌≡◌, refl, Bool, true, false, Option, none, some, List, [], ◌∷◌, arith,
}
use likwid_bench.Threads.Protocol.{
  Command, Pc, idle, serve, running, finishing, at_barrier, last_signal, last_barrier, System, ran,
  signalled, signed_off, waiting, send, take, meet, Reach, here, next, created,
}
use likwid_bench.Threads.Protocol.Progress.{CanStep, move-CanStep, serve-CanStep}

module _ (rounds : ℕ → ℕ) where
  take_turn :
      (n : ℕ) (s : System) (i : ℕ) (q : List Command)
      → i < n
      → s.pc i ≡ idle
      → s.queue i ≡ q
      → Option (CanStep n rounds s)
  take_turn n s i [] lt at same = none
  take_turn n s i (c ∷ q) lt at same = some (_, take i c q lt at same)

  turn : (n : ℕ) (s : System) (i : ℕ) (pc : Pc) → i < n → s.pc i ≡ pc → Option (CanStep n rounds s)
  unfolding take_turn move-CanStep serve-CanStep
  turn n s i idle lt at = take_turn n s i (s.queue i) lt at refl
  turn n s i (serve c) lt at = some (serve-CanStep n rounds s i c lt at)
  turn n s i (running zero) lt at =
      some (move-CanStep n rounds s i (running 0) finishing (s.done i) lt at ran)
  turn n s i finishing lt at =
      some (move-CanStep n rounds s i finishing at_barrier true lt at signalled)
  turn n s i last_signal lt at =
      some (move-CanStep n rounds s i last_signal last_barrier true lt at signed_off)
  turn n s i other lt at = none

  pub both :
      (s : System)
      → waiting (s.pc 0) ≡ true
      → waiting (s.pc 1) ≡ true
      → (i : ℕ) → i < 2
      → waiting (s.pc i) ≡ true
  both s a b zero lt = a
  both s a b (suc zero) lt = b
  both s a b (suc (suc i)) lt = absurd (omega arith)

  opening :
      (s : System) (a b : Bool)
      → waiting (s.pc 0) ≡ a
      → waiting (s.pc 1) ≡ b
      → Option (CanStep 2 rounds s)
  opening s true true a b = some (_, meet (omega arith) (both s a b))
  opening s other others a b = none

  first_of : {A : Type 0} → Option A → Option A → Option A
  first_of none o = o
  first_of (some a) o = some a

  sending : (s : System) (l : List (ℕ × Command)) → s.script ≡ l → Option (CanStep 2 rounds s)
  sending s [] e = none
  sending s ((i, c) ∷ rest) e = some (_, send i c rest e)

  -- The next step of two workers.
  next_step : (s : System) → Option (CanStep 2 rounds s)
  unfolding sending first_of turn opening waiting
  next_step s = first_of (sending s s.script refl) (
      first_of (turn 2 s 0 (s.pc 0) (omega arith) refl) (
        first_of (turn 2 s 1 (s.pc 1) (omega arith) refl)
          (opening s (waiting (s.pc 0)) (waiting (s.pc 1)) refl refl)))

  -- A run of two workers, as far as it has come.
  pub record Run : Type 0 where
    pub steps : ℕ
    pub last : System
    pub reach : Reach 2 rounds false (created 2) steps last

  go_on : (r : Run) → Option (CanStep 2 rounds r.last) → Run
  go_on r none = r
  go_on r (some (t, st)) = record { steps = suc r.steps; last = t; reach = next r.reach st }

  -- The run after some more rounds of the scheduler.
  unfoldable pub run_on : ℕ → Run → Run
  unfolding next_step go_on
  run_on zero r = r
  run_on (suc k) r = let r' = run_on k r in go_on r' (next_step r'.last)

  abbrev pub beginning : Run
  beginning = record { steps = 0; last = created 2; reach = here }
