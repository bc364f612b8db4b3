-- ===== src/Threads/Queue/Takes.antt =====
-- What `_func_t` of src/threads.c takes from the list of commands.
use mathlib.Core.Path.{subst}
use likwid_bench.Base.{
  ◌≡◌, ◌≢◌, refl, sym, ◌∙◌, ap, false, none, some, List, [], ◌∷◌, ◌==◌, if◌then◌else◌, arith,
}
use likwid_bench.Threads.Protocol.{Command}
use likwid_bench.Threads.Queue.{Ptr, null, Heap, write, CommandQueue, Taken, waits, took, take_cmd}
use likwid_bench.Threads.Queue.Linked.{
  Cells, first, last, commands, Linked, Represents, Linked-write,
}

-- What the worker finds is the oldest command.
abbrev pub Takes : CommandQueue → List Command → Taken → Type 0
Takes t [] r = r ≡ waits
Takes t (c ∷ cs) r = (t' : CommandQueue) × (r ≡ took c t') × (t'.done ≡ t.done) × Represents t' cs

take_cmd-first :
    (t : CommandQueue) (p : Ptr) (d : Command) (next : Ptr)
    → t.head ≢ null
    → t.heap t.head ≡ some (record { cmd = d; next = next })
    → take_cmd t
      ≡ took d (record t {
        heap = write t.heap t.head none;
        head = next;
        tail = (if next == null then null else t.tail);
      })
unfolding take_cmd
take_cmd-first t p d next nonnull e =
    let test : (t.head == null) ≡ false = ground arith in rw (test, e, take_cmd) refl

tail_after :
    (h : Heap) (p : Ptr) (d : Command) (xs : Cells) (tail : Ptr)
    → Linked h ((p, d) ∷ xs)
    → tail ≡ last p xs
    → (if first xs == null then null else tail) ≡ last null xs
unfolding Linked
tail_after h p d [] tail l e = refl
tail_after h p d ((p2, d2) ∷ xs) tail l e =
    let test : (p2 == null) ≡ false = ground (arith, l.3.1) in rw test e

cells-Takes :
    (xs : Cells) (t : CommandQueue)
    → Linked t.heap xs
    → t.head ≡ first xs
    → t.tail ≡ last null xs
    → Takes t (commands xs) (take_cmd t)
unfolding take_cmd Represents Linked
cells-Takes [] t l head tail = rw (head, take_cmd) refl
cells-Takes ((p, d) ∷ xs) t l head tail = (
  _,
  take_cmd-first t p d (first xs) (λ z. l.1 (sym head ∙ z)) (ap t.heap head ∙ l.0),
  refl,
  (
    xs,
    refl,
    rw head (Linked-write t.heap p none xs l.2 l.3),
    refl,
    tail_after t.heap p d xs t.tail l tail,
  ),
)

pub take_cmd-Takes :
    (cs : List Command) (t : CommandQueue) → Represents t cs → Takes t cs (take_cmd t)
unfolding Represents
take_cmd-Takes cs t (xs, same, l, head, tail) =
    subst (λ l. Takes t l (take_cmd t)) same (cells-Takes xs t l head tail)
