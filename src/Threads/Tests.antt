-- ===== src/Threads/Tests.antt =====
-- Two workers of src/threads.c, and the properties at concrete inputs.
use likwid_bench.Base.{
  ℕ, zero, suc, ◌+◌, ◌*◌, ◌≤◌, ◌<◌, ◌≡◌, ◌↔◌, ◌⊎◌, refl, true, false, none, some, [], ◌∷◌, ok, ◌==◌,
  if◌then◌else◌, get_or, arith,
}
use likwid_bench.Base.Int.{ℤ, pos}
use likwid_bench.Allocator.{double, getsizeof, elems_loop, getstreambytes}
use likwid_bench.Threads.Protocol.{exit, initialize, run, running, gone, created, to_all, after}
use likwid_bench.Threads.Protocol.Changes.{pending}
use likwid_bench.Threads.Protocol.Measure.{measure}
use likwid_bench.Threads.Protocol.Progress.{CanStep}
use likwid_bench.Threads.Protocol.Scheduler.{Run, run_on, beginning}
use likwid_bench.Threads.Protocol.Runs.{joined-rounds, Reach-ends}
use likwid_bench.Threads.Protocol.Initialized.{to_initialize, running-to_initialize}
use likwid_bench.Threads.Queue.{CommandQueue, send_cmd, take_cmd}
use likwid_bench.Threads.Queue.Linked.{Represents, Fresh, Linked}
use likwid_bench.Threads.Queue.Sent.{Sent}
use likwid_bench.Threads.Queue.Takes.{Takes}
use likwid_bench.Threads.Queue.Refine.{send_cmd-Represents}
use likwid_bench.Threads.Parts.{
  offset_loop, linear_offset, ptr_in_range, Part, tstream_ptr, check_dims, check_parts,
}
use likwid_bench.Threads.Parts.Offsets.{index, volume, linear_offset-index}
use likwid_bench.Threads.Parts.Ranges.{Sized, PartInside, check_parts-PartInside}

abbrev one_round : ℕ → ℕ
one_round i = 1

abbrev joined : Run one_round
joined = run_on one_round 60 (beginning one_round)

joined_gone : (i : ℕ) → i < 2 → joined.last.pc i ≡ gone
unfolding run_on created to_all after
joined_gone zero lt = refl
joined_gone (suc zero) lt = refl
joined_gone (suc (suc i)) lt = absurd (omega arith)

-- Both workers have taken the second command.
abbrev benchmarking : Run one_round
benchmarking = run_on one_round 20 (beginning one_round)

benchmarking_pc : benchmarking.last.pc 0 ≡ running 6
unfolding run_on created to_all after
benchmarking_pc = refl

joined-rounds_example : one_round 0 ≡ one_round 1
joined-rounds_example = joined-rounds joined.reach joined_gone 0 1 (omega arith) (omega arith)

Reach-ends_example :
    (benchmarking.steps ≤ measure 2 one_round (created 2))
    × (CanStep 2 one_round benchmarking.last ⊎ ((i : ℕ) → i < 2 → benchmarking.last.pc i ≡ gone))
Reach-ends_example = Reach-ends (omega arith) benchmarking.reach 1 (λ i lt. refl)

running-to_initialize_example :
    to_initialize (benchmarking.last.pc 1) (pending benchmarking.last 1) ≡ false
running-to_initialize_example =
    running-to_initialize benchmarking.reach 0 1 6 (omega arith) (omega arith) benchmarking_pc

-- Two commands, at the addresses 8 and 16.
abbrev two_commands : CommandQueue
two_commands = record {
  heap = λ p.
      if p == 8
      then some (record { cmd = initialize; next = 16 })
      else if p == 16
      then some (record { cmd = run; next = 0 })
      else none;
  head = 8;
  tail = 16;
  done = false;
}

two_commands-Represents : Represents two_commands (initialize ∷ run ∷ [])
unfolding Represents Linked
two_commands-Represents = (
  (8, initialize) ∷ (16, run) ∷ [],
  refl,
  (refl, (λ e. omega arith), ((λ e. omega arith), tt), (refl, (λ e. omega arith), tt, tt)),
  refl,
  refl,
)

two_commands-Fresh : Fresh two_commands 24
unfolding Fresh
two_commands-Fresh = refl

send_cmd-Represents_example :
    ((r : ℤ × CommandQueue) × (send_cmd 24 0 0 exit two_commands ≡ some r)
      × Sent 24 0 exit (initialize ∷ run ∷ []) r)
    × Takes two_commands (initialize ∷ run ∷ []) (take_cmd two_commands)
send_cmd-Represents_example =
    send_cmd-Represents 24 0 exit (initialize ∷ run ∷ []) two_commands two_commands-Represents
      two_commands-Fresh

in_range : (d : ℕ) → d < 2 → get_or (1 ∷ 2 ∷ []) d 0 < get_or (3 ∷ 4 ∷ []) d 0
in_range zero lt = omega arith
in_range (suc zero) lt = omega arith
in_range (suc (suc d)) lt = absurd (omega arith)

linear_offset-index_example :
    (linear_offset 2 (1 ∷ 2 ∷ []) (3 ∷ 4 ∷ []) 8 ≡ index (1 ∷ 2 ∷ []) (3 ∷ 4 ∷ []) 2 * 8)
    × (linear_offset 2 (1 ∷ 2 ∷ []) (3 ∷ 4 ∷ []) 8 + 8 ≤ volume (1 ∷ 2 ∷ []) (3 ∷ 4 ∷ []) 2 * 8)
unfolding volume
linear_offset-index_example =
    linear_offset-index (1 ∷ 2 ∷ []) (3 ∷ 4 ∷ []) 2 8 in_range (omega arith)

-- The second half of eight elements.
abbrev half_of : Part
half_of = record {
  stream = record {
    named = true;
    id = pos 0;
    type = double;
    dims = 1;
    dimsizes = 64 ∷ 0 ∷ 0 ∷ [];
    offsets = pos 0 ∷ pos 0 ∷ pos 0 ∷ [];
    flags = record { words = none; size = 0; alignment = 0 };
    base_ptr = 4096;
    ptr = 4096;
  };
  tsizes = 4 ∷ [];
  toffsets = 4 ∷ [];
}

half_of-Sized : Sized half_of
unfolding getstreambytes elems_loop getsizeof
half_of-Sized = (omega arith, (omega arith, tt))

half_of_checked : check_parts (half_of ∷ []) ≡ ok tt
unfolding check_parts check_dims ptr_in_range tstream_ptr linear_offset offset_loop getstreambytes
    elems_loop getsizeof
half_of_checked = refl

check_parts-PartInside_example :
    (check_parts (half_of ∷ []) ≡ ok tt) ↔ ((PartInside half_of 4 × Unit {0}) × Unit {0})
check_parts-PartInside_example = check_parts-PartInside (half_of ∷ []) (half_of-Sized, tt)
