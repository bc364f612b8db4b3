-- ===== src/Threads/Queue/Refine.antt =====
-- The command queue of src/threads.c, at both of its ends, and the list of commands.
use likwid_bench.Base.{ℕ, ◌≡◌, some, List}
use likwid_bench.Base.Int.{ℤ}
use likwid_bench.Threads.Protocol.{Command}
use likwid_bench.Threads.Queue.{Ptr, CommandQueue, send_cmd, take_cmd}
use likwid_bench.Threads.Queue.Linked.{Represents, Fresh}
use likwid_bench.Threads.Queue.Sent.{Sent, send_cmd-Sent}
use likwid_bench.Threads.Queue.Takes.{Takes, take_cmd-Takes}

-- If the queue holds the commands `cs`, sending `c` without a failure of the signal adds it after
-- them and clears `done`, or returns -ENOMEM or the code of the lock and leaves the commands as they
-- are, where the new node is at an address that holds none; and the worker, when it holds the lock,
-- takes the oldest command and leaves the others, or waits if there is none. No pointer dangles.
pub send_cmd-Represents :
    (q : Ptr) (lock_err : ℕ) (c : Command) (cs : List Command) (t : CommandQueue)
    → Represents t cs
    → Fresh t q
    → ((r : ℤ × CommandQueue) × (send_cmd q lock_err 0 c t ≡ some r) × Sent q lock_err c cs r)
      × Takes t cs (take_cmd t)
send_cmd-Represents q lock_err c cs t rep fresh =
    (send_cmd-Sent q lock_err c cs t rep fresh, take_cmd-Takes cs t rep)
