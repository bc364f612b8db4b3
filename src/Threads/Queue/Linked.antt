-- ===== src/Threads/Queue/Linked.antt =====
-- The command queue of src/threads.c as a list of commands, oldest first.
use likwid_bench.Base.{
  ◌≡◌, ◌≢◌, refl, sym, ◌∙◌, ap, false, Option, none, some, List, [], ◌∷◌, ◌++◌, All, ◌==◌, ==_self,
  arith,
}
use likwid_bench.Threads.Protocol.{Command}
use likwid_bench.Threads.Queue.{Ptr, null, Node, Heap, write, CommandQueue}

abbrev pub Cells : Type 0
Cells = List (Ptr × Command)

abbrev pub first : Cells → Ptr
first [] = null
first ((p, c) ∷ xs) = p

abbrev pub last : Ptr → Cells → Ptr
last p [] = p
last p ((q, c) ∷ xs) = last q xs

abbrev pub commands : Cells → List Command
commands [] = []
commands ((p, c) ∷ xs) = c ∷ commands xs

abbrev pub Absent : Ptr → Cells → Type 0
Absent p xs = All (λ x. x.0 ≢ p) xs

-- The cells from a pointer on, each at an address of its own that is not `NULL`.
unfoldable pub Linked : Heap → Cells → Type 0
Linked h [] = Unit
Linked h ((p, c) ∷ xs) =
    (h p ≡ some (record { cmd = c; next = first xs })) × (p ≢ null) × Absent p xs × Linked h xs

-- The queue holds the commands, oldest first, and `tail` is at the last one.
unfoldable pub Represents : CommandQueue → List Command → Type 0
unfolding Linked
Represents t cs =
    (xs : Cells) × (commands xs ≡ cs)
    × Linked t.heap xs
    × (t.head ≡ first xs)
    × (t.tail ≡ last null xs)

-- An address that `malloc` may return: no node of the queue is there.
unfoldable pub Fresh : CommandQueue → Ptr → Type 0
Fresh t q = t.heap q ≡ none

pub write_other : (h : Heap) (p q : Ptr) (c : Option Node) → q ≢ p → write h p c q ≡ h q
unfolding write
write_other h p q c other = let e : (q == p) ≡ false = ground arith in rw e refl

pub write_self : (h : Heap) (p : Ptr) (c : Option Node) → write h p c p ≡ c
unfolding write
write_self h p c = rw (==_self p) refl

pub Linked-write :
    (h : Heap) (p : Ptr) (c : Option Node) (xs : Cells)
    → Absent p xs
    → Linked h xs
    → Linked (write h p c) xs
unfolding Linked
Linked-write h p c [] a l = tt
Linked-write h p c ((q, d) ∷ xs) a l =
    (write_other h p q c a.0 ∙ l.0, l.1, l.2, Linked-write h p c xs a.1 l.3)

pub fresh-Absent : (h : Heap) (q : Ptr) (xs : Cells) → h q ≡ none → Linked h xs → Absent q xs
unfolding Linked
fresh-Absent h q [] e l = tt
fresh-Absent h q ((p, c) ∷ xs) e l = (
  (λ same.
      (let k : none ≡ some (record { cmd = c; next = first xs }) = sym e ∙ ap h (sym same) ∙ l.0 in
        cc)),
  fresh-Absent h q xs e l.3,
)

pub Absent-append :
    (p q : Ptr) (c : Command) (xs : Cells) → q ≢ p → Absent p xs → Absent p (xs ++ (q, c) ∷ [])
Absent-append p q c [] other a = (other, tt)
Absent-append p q c (x ∷ xs) other a = (a.0, Absent-append p q c xs other a.1)

pub last-ne : (p p2 : Ptr) (xs : Cells) → p2 ≢ p → Absent p xs → last p2 xs ≢ p
last-ne p p2 [] other a = other
last-ne p p2 ((p3, d) ∷ xs) other a = last-ne p p3 xs a.0 a.1
