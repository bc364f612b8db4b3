-- ===== src/Topology/Tests.antt =====
-- Runs of the sort of src/topology.c.
use mathlib.Core.List.{Perm}
use likwid_bench.Base.{
  ℕ, ◌+◌, ◌^◌, ◌≡◌, refl, Bool, true, false, some, List, [], ◌∷◌, All, ◌<◌, ok, err, enomem, fail,
  arith,
}
use likwid_bench.Topology.{
  HwThread, sort_key, bump, add_up, sums, scan, tally, place, pass, sort_levels, hwthreads_sort,
}
use likwid_bench.Topology.Buckets.{Ascends}
use likwid_bench.Topology.Sorted.{SmallId, LexLe, level, hwthreads_sort-Sorts}

abbrev zero_int : ℕ
zero_int = 2 ^ 31

-- A thread of a core on a socket.
abbrev hwthread : (os_id smt_id core_id socket_id : ℕ) → HwThread
hwthread os smt core socket = record {
  os_id = zero_int + os;
  smt_id = zero_int + smt;
  core_id = zero_int + core;
  die_id = zero_int;
  socket_id = zero_int + socket;
  numa_id = zero_int + socket;
  l1_id = zero_int + core;
  l2_id = zero_int + core;
  llc_id = zero_int + socket;
  usable = zero_int;
}

abbrev first_thread : HwThread
first_thread = hwthread 0 0 0 0

abbrev sibling : HwThread
sibling = hwthread 2 1 0 0

abbrev other_socket : HwThread
other_socket = hwthread 1 0 1 1

abbrev machine : List HwThread
machine = other_socket ∷ sibling ∷ first_thread ∷ []

abbrev buffer : List HwThread
buffer = machine

abbrev plenty : ℕ → Bool
plenty k = true

closed_order :
    hwthreads_sort plenty (some buffer) false machine
    ≡ ok (first_thread ∷ sibling ∷ other_socket ∷ [])
unfolding hwthreads_sort sort_levels pass place tally sums add_up bump scan sort_key
closed_order = refl

smt_last :
    hwthreads_sort plenty (some buffer) true machine
    ≡ ok (first_thread ∷ other_socket ∷ sibling ∷ [])
unfolding hwthreads_sort sort_levels pass place tally sums add_up bump scan sort_key
smt_last = refl

no_counts : hwthreads_sort (λ k. false) (some buffer) false machine ≡ err enomem
unfolding hwthreads_sort sort_levels pass place tally sums add_up bump scan sort_key
no_counts = refl

no_threads : hwthreads_sort plenty (some []) false [] ≡ err fail
unfolding hwthreads_sort
no_threads = refl

thread_small :
    (os smt core socket : ℕ)
    → os < 100
    → smt < 100
    → core < 100
    → socket < 100
    → All SmallId (sort_key false (hwthread os smt core socket))
unfolding sort_key
thread_small os smt core socket h1 h2 h3 h4 = (
  (omega arith, omega arith),
  (
    (omega arith, omega arith),
    (
      (omega arith, omega arith),
      (
        (omega arith, omega arith),
        (
          (omega arith, omega arith),
          (
            (omega arith, omega arith),
            (
              (omega arith, omega arith),
              ((omega arith, omega arith), ((omega arith, omega arith), tt)),
            ),
          ),
        ),
      ),
    ),
  ),
)

machine_small : All (λ t. All SmallId (sort_key false t)) machine
machine_small = (
  thread_small 1 0 1 1 (omega arith) (omega arith) (omega arith) (omega arith),
  (
    thread_small 2 1 0 0 (omega arith) (omega arith) (omega arith) (omega arith),
    (thread_small 0 0 0 0 (omega arith) (omega arith) (omega arith) (omega arith), tt),
  ),
)

hwthreads_sort-Sorts_example :
    (r : List HwThread) × (hwthreads_sort plenty (some buffer) false machine ≡ ok r)
    × Perm r machine
    × Ascends (LexLe (level false) 9 0) r
hwthreads_sort-Sorts_example =
    hwthreads_sort-Sorts plenty buffer false machine (λ k. refl) refl (omega arith) machine_small
