-- ===== src/Threads/Queue.antt =====
-- `Queue` and `RuntimeThreadCommand` of include/test_types.h on an explicit heap: `send_cmd` of
-- src/threads.c puts a node at the tail, and `_func_t` takes the one at the head.
pub mod Linked
pub mod Sent
pub mod Takes
pub mod Refine
use likwid_bench.Base.{
  ℕ, zero, suc, ◌+◌, Bool, true, false, Option, none, some, List, [], ◌∷◌, ◌==◌, if◌then◌else◌,
}
use likwid_bench.Base.Int.{ℤ, pos, negsuc}
use likwid_bench.Threads.Protocol.{Command}

abbrev pub Ptr : Type 0
Ptr = ℕ

abbrev pub null : Ptr
null = 0

pub record Node : Type 0 where
  pub cmd : Command
  pub next : Ptr

abbrev pub Heap : Type 0
Heap = Ptr → Option Node

unfoldable pub write : Heap → Ptr → Option Node → Heap
write h p c q = if q == p then c else h q

-- The fields of `RuntimeThreadCommand` that the two functions use, and the heap.
pub record CommandQueue : Type 0 where
  pub heap : Heap
  pub head : Ptr
  pub tail : Ptr
  pub done : Bool

-- `-EINVAL` and `-ENOMEM`
abbrev pub minus_einval : ℤ
minus_einval = negsuc 21

abbrev pub minus_enomem : ℤ
minus_enomem = negsuc 11

-- The node `q` at the tail; `none` is a write through a dangling pointer.
unfoldable pub link : CommandQueue → Ptr → Option CommandQueue
unfolding write
link t q =
    if t.tail == null then some (record t { head = q; tail = q }) else (elim (t.heap t.tail) [
      | none ↦ none
      | some n ↦
          some (record t { heap = write t.heap t.tail (some (record n { next = q })); tail = q })
    ])

-- `q` is what `malloc` returns, and the two codes are what locking and signalling return. After a
-- failed signal the node is freed, and stays in the queue.
unfoldable pub send_cmd :
    (q : Ptr) (lock_err signal_err : ℕ) → Command → CommandQueue → Option (ℤ × CommandQueue)
unfolding write link
send_cmd q lock_err signal_err c t =
    if q == null
    then some (minus_enomem, t)
    else (let made = record t { heap = write t.heap q (some (record { cmd = c; next = null })) } in
        if lock_err == 0
        then (elim (link made q) [
          | none ↦ none
          | some linked ↦
              let sent = record linked { done = false } in
              if signal_err == 0
              then some (pos 0, sent)
              else some (pos signal_err, record sent { heap = write sent.heap q none })
        ])
        else some (pos lock_err, made))

-- The check for a `NULL` thread comes first.
unfoldable pub send_cmd_to :
    (q : Ptr) (lock_err signal_err : ℕ)
    → Command
    → Option CommandQueue
    → Option (ℤ × Option CommandQueue)
unfolding send_cmd
send_cmd_to q lock_err signal_err c none = some (minus_einval, none)
send_cmd_to q lock_err signal_err c (some t) = elim (send_cmd q lock_err signal_err c t) [
  | none ↦ none
  | some (code, t') ↦ some (code, some t')
]

-- What `_func_t` finds when it holds the lock: no command, so that it waits, a command, or a node
-- that is not there.
pub data Taken : Type 0 where
  waits : Taken
  took : Command → CommandQueue → Taken
  dangling : Taken

unfoldable pub take_cmd : CommandQueue → Taken
unfolding write
take_cmd t = if t.head == null then waits else (elim (t.heap t.head) [
  | none ↦ dangling
  | some n ↦ took n.cmd (record t {
    heap = write t.heap t.head none;
    head = n.next;
    tail = (if n.next == null then null else t.tail);
  })
])
