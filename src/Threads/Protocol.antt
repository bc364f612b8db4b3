-- ===== src/Threads/Protocol.antt =====
-- `_func_t` of src/threads.c for the workers of one group, and the commands that `main` of
-- likwid-bench.c sends them. A step is one access to what they share; a barrier lets all pass at
-- once when the last one arrives.
pub mod Changes
pub mod Waits
pub mod Measure
pub mod Progress
pub mod Runs
pub mod Initialized
pub mod Scheduler
use likwid_bench.Base.{
  ℕ, zero, suc, ◌+◌, ◌*◌, ◌<◌, ◌≡◌, ◌≢◌, Bool, true, false, List, [], ◌∷◌, ◌++◌, ◌==◌, ltb,
  if◌then◌else◌,
}

-- `LikwidThreadCommand`
pub data Command : Type 0 where
  exit noop initialize run verify : Command

-- Where a worker stands in `_func_t`.
pub data Pc : Type 0 where
  idle : Pc  -- the head of the loop
  serve : Command → Pc  -- the `switch`
  running : (left : ℕ) → Pc  -- in `run_benchmark`, with as many waits at the barrier left
  finishing : Pc  -- before `signal for completion`
  at_barrier : Pc  -- the wait at the end of the loop
  leaving : Pc  -- the wait at `exit_thread`
  last_signal : Pc
  last_barrier : Pc
  gone : Pc  -- after `pthread_exit`

-- The waits of `run_benchmark` with the given rounds of its timing loop: one before it, two and two
-- for each round in `MEASURE` or `WARMUP`, three in `EXECUTE` and one at the end.
abbrev pub run_waits : ℕ → ℕ
run_waits rounds = 1 + (2 + 2 * rounds) + 3 + 1

-- `done` and the queue are the fields of a worker's `RuntimeThreadCommand`; `script` is what `main`
-- has still to send, and `met` counts how often the barrier has opened.
pub record System : Type 0 where
  pub script : List (ℕ × Command)
  pub queue : ℕ → List Command
  pub done : ℕ → Bool
  pub pc : ℕ → Pc
  pub met : ℕ

abbrev pub update {ℓ} : {A : Type ℓ} → (ℕ → A) → ℕ → A → ℕ → A
update f i a j = if i == j then a else f j

-- A step of one worker that waits at no barrier, with `done` before and after it.
pub data Move (rounds : ℕ) : (pc : Pc) (done : Bool) → Pc → Bool → Type 0 where
  initialized : {d : Bool} → Move rounds (serve initialize) d finishing d
  nothing : {d : Bool} → Move rounds (serve noop) d finishing d
  started : {d : Bool} → Move rounds (serve run) d (running (run_waits rounds)) true
  ran : {d : Bool} → Move rounds (running 0) d finishing d
  signalled : {d : Bool} → Move rounds finishing d at_barrier true
  told : {d : Bool} → Move rounds (serve exit) d leaving d
  invalid : {d : Bool} → Move rounds (serve verify) d leaving d
  signed_off : {d : Bool} → Move rounds last_signal d last_barrier true

-- The worker is in `pthread_barrier_wait`.
unfoldable pub waiting : Pc → Bool
waiting (running zero) = false
waiting (running (suc left)) = true
waiting at_barrier = true
waiting leaving = true
waiting last_barrier = true
waiting other = false

-- Where it goes on when the barrier opens.
unfoldable pub after : Pc → Pc
after (running (suc left)) = running left
after at_barrier = idle
after leaving = last_signal
after last_barrier = gone
after other = other

-- `n` workers, with the number of rounds that each one's timing loop makes; with `timeouts`, a
-- worker may give up waiting for a command.
pub data Step (n : ℕ) (rounds : ℕ → ℕ) (timeouts : Bool) (s : System) : System → Type 0 where
  send :
      (i : ℕ) (c : Command) (rest : List (ℕ × Command))
      → s.script ≡ (i, c) ∷ rest
      → Step n rounds timeouts s (record s {
        script = rest;
        queue = update s.queue i (s.queue i ++ c ∷ []);
        done = update s.done i false;
      })
  take :
      (i : ℕ) (c : Command) (rest : List Command)
      → i < n
      → s.pc i ≡ idle
      → s.queue i ≡ c ∷ rest
      → Step n rounds timeouts s
          (record s { queue = update s.queue i rest; pc = update s.pc i (serve c) })
  time_out :
      (i : ℕ)
      → timeouts ≡ true
      → i < n
      → s.pc i ≡ idle
      → s.queue i ≡ []
      → Step n rounds timeouts s (record s { pc = update s.pc i leaving })
  move :
      (i : ℕ) {p : Pc} {d : Bool}
      → i < n
      → Move (rounds i) (s.pc i) (s.done i) p d
      → Step n rounds timeouts s (record s { pc = update s.pc i p; done = update s.done i d })
  meet :
      0 < n
      → ((i : ℕ) → i < n → waiting (s.pc i) ≡ true)
      → Step n rounds timeouts s
          (record s { pc = (λ i. if ltb i n then after (s.pc i) else s.pc i); met = suc s.met })

-- The states that a run of `k` steps reaches from the start with a script.
pub data Reach (n : ℕ) (rounds : ℕ → ℕ) (timeouts : Bool) (start : System)
    : ℕ → System → Type 0 where
  here : Reach n rounds timeouts start 0 start
  next :
      {k : ℕ} {s t : System}
      → Reach n rounds timeouts start k s
      → Step n rounds timeouts s t
      → Reach n rounds timeouts start (suc k) t

-- The loop of `main` over the workers of the group, for one command.
unfoldable pub to_all : ℕ → Command → List (ℕ × Command)
to_all zero c = []
to_all (suc n) c = to_all n c ++ (n, c) ∷ []

-- After `create_threads`: `update_threads` has set `done`, and the queues are empty.
unfoldable pub created : ℕ → System
unfolding to_all
created n = record {
  script = to_all n initialize ++ to_all n run ++ to_all n exit;
  queue = λ i. [];
  done = λ i. true;
  pc = λ i. idle;
  met = 0;
}
