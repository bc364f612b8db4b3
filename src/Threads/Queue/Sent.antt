-- ===== src/Threads/Queue/Sent.antt =====
-- What `send_cmd` of src/threads.c does to the list of commands.
use mathlib.Core.Path.{subst}
use likwid_bench.Base.{
  ℕ, zero, suc, ◌≡◌, ◌≢◌, refl, sym, ◌∙◌, ap, false, some, List, [], ◌∷◌, ◌++◌, ◌==◌, ==→ne,
  if◌then◌else◌, arith, Bool-cases, inl, inr,
}
use likwid_bench.Base.Int.{ℤ, pos}
use likwid_bench.Threads.Protocol.{Command}
use likwid_bench.Threads.Queue.{
  Ptr, null, Node, Heap, write, CommandQueue, minus_enomem, link, send_cmd,
}
use likwid_bench.Threads.Queue.Linked.{
  Cells, first, last, commands, Absent, Linked, Represents, Fresh, write_other, write_self,
  Linked-write, fresh-Absent, Absent-append, last-ne,
}

-- The last cell of some, and the heap in which it points at a new one.
Linked-append :
    (h : Heap) (p : Ptr) (d : Command) (xs : Cells) (q : Ptr) (c : Command)
    → Linked h ((p, d) ∷ xs)
    → Absent q ((p, d) ∷ xs)
    → q ≢ null
    → h q ≡ some (record { cmd = c; next = null })
    → (n : Node) × (h (last p xs) ≡ some n)
      × Linked (write h (last p xs) (some (record n { next = q }))) ((p, d) ∷ xs ++ (q, c) ∷ [])
unfolding Linked
Linked-append h p d [] q c l a ok at = (
  record { cmd = d; next = null },
  l.0,
  (
    write_self h p _,
    l.1,
    Absent-append p q c [] (λ e. a.0 (sym e)) tt,
    (write_other h p q _ (λ e. a.0 (sym e)) ∙ at, ok, tt, tt),
  ),
)
Linked-append h p d ((p2, d2) ∷ xs) q c l a ok at =
    let a_p = l.2 in
    let (n, e, rest) = Linked-append h p2 d2 xs q c l.3 a.1 ok at in
    (
      n,
      e,
      (
        write_other h (last p2 xs) p _ (λ e. last-ne p p2 xs a_p.0 a_p.1 (sym e)) ∙ l.0,
        l.1,
        Absent-append p q c ((p2, d2) ∷ xs) (λ e. a.0 (sym e)) l.2,
        rest,
      ),
    )

last-append : (p : Ptr) (xs : Cells) (q : Ptr) (c : Command) → last p (xs ++ (q, c) ∷ []) ≡ q
last-append p [] q c = refl
last-append p ((p2, d) ∷ xs) q c = last-append p2 xs q c

commands-append :
    (xs : Cells) (q : Ptr) (c : Command) → commands (xs ++ (q, c) ∷ []) ≡ commands xs ++ c ∷ []
commands-append [] q c = refl
commands-append ((p, d) ∷ xs) q c = ap (◌∷◌ d) (commands-append xs q c)

last-null :
    (h : Heap) (p : Ptr) (d : Command) (xs : Cells) → Linked h ((p, d) ∷ xs) → last p xs ≢ null
unfolding Linked
last-null h p d [] l = l.1
last-null h p d ((p2, d2) ∷ xs) l = last-null h p2 d2 xs l.3

link-some :
    (t : CommandQueue) (q : Ptr) (n : Node)
    → t.tail ≢ null
    → t.heap t.tail ≡ some n
    → link t q
      ≡ some (record t { heap = write t.heap t.tail (some (record n { next = q })); tail = q })
unfolding link
link-some t q n nonnull e =
    let test : (t.tail == null) ≡ false = ground arith in rw (test, e, link) refl

-- `link` after the new node has been written.
link-Represents :
    (t : CommandQueue) (xs : Cells) (q : Ptr) (c : Command)
    → Linked t.heap xs
    → Absent q xs
    → t.head ≡ first xs
    → t.tail ≡ last null xs
    → q ≢ null
    → t.heap q ≡ some (record { cmd = c; next = null })
    → (t' : CommandQueue) × (link t q ≡ some t') × Represents t' (commands xs ++ c ∷ [])
unfolding link Represents Linked
link-Represents t [] q c l a head tail ok at = (
  record t { head = q; tail = q },
  rw (tail, link) refl,
  ((q, c) ∷ [], refl, (at, ok, tt, tt), refl, refl),
)
link-Represents t ((p, d) ∷ xs) q c l a head tail ok at =
    let (n, e, linked) = Linked-append t.heap p d xs q c l a ok at in
    (
      record t { heap = write t.heap t.tail (some (record n { next = q })); tail = q },
      link-some t q n (λ z. last-null t.heap p d xs l (sym tail ∙ z)) (ap t.heap tail ∙ e),
      (
        (p, d) ∷ xs ++ (q, c) ∷ [],
        ap (◌∷◌ d) (commands-append xs q c),
        subst
            (λ a.
              Linked (write t.heap a (some (record n { next = q }))) ((p, d) ∷ xs ++ (q, c) ∷ []))
            (sym tail) linked,
        head,
        sym (last-append p xs q c),
      ),
    )

-- The result of `send_cmd` for each outcome of `malloc` and of the lock, with a signal that succeeds.
abbrev pub Sent : Ptr → ℕ → Command → List Command → ℤ × CommandQueue → Type 0
Sent q zero c cs (code, t') =
    if q == null
    then (code ≡ minus_enomem) × Represents t' cs
    else (code ≡ pos 0) × (t'.done ≡ false) × Represents t' (cs ++ c ∷ [])
Sent q (suc e) c cs (code, t') =
    if q == null
    then (code ≡ minus_enomem) × Represents t' cs
    else (code ≡ pos (suc e)) × Represents t' cs

made-Linked :
    (t : CommandQueue) (q : Ptr) (c : Command) (xs : Cells)
    → Fresh t q
    → Linked t.heap xs
    → Linked (write t.heap q (some (record { cmd = c; next = null }))) xs
unfolding Fresh
made-Linked t q c xs fresh l = Linked-write t.heap q _ xs (fresh-Absent t.heap q xs fresh l) l

pub send_cmd-Sent :
    (q : Ptr) (lock_err : ℕ) (c : Command) (cs : List Command) (t : CommandQueue)
    → Represents t cs
    → Fresh t q
    → (r : ℤ × CommandQueue) × (send_cmd q lock_err 0 c t ≡ some r) × Sent q lock_err c cs r
unfolding send_cmd Represents Fresh
send_cmd-Sent q zero c cs t (xs, same, l, head, tail) fresh = elim (Bool-cases (q == null)) [
  | inl no_memory ↦ (
    (minus_enomem, t),
    rw (no_memory, send_cmd) refl,
    rw no_memory (refl, (xs, same, l, head, tail)),
  )
  | inr memory ↦
      let made : CommandQueue = record t {
        heap = write t.heap q (some (record { cmd = c; next = null }));
      } in
      let (t', linked, (ys, same', l', head', tail')) =
        link-Represents made xs q c (made-Linked t q c xs fresh l)
          (fresh-Absent t.heap q xs fresh l) head tail (==→ne q null memory)
          (write_self t.heap q _) in
      (
        (pos 0, record t' { done = false }),
        rw (memory, linked, send_cmd) refl,
        rw memory (refl, refl, (ys, same' ∙ ap (λ l. l ++ c ∷ []) same, l', head', tail')),
      )
]
send_cmd-Sent q (suc e) c cs t (xs, same, l, head, tail) fresh = elim (Bool-cases (q == null)) [
  | inl no_memory ↦ (
    (minus_enomem, t),
    rw (no_memory, send_cmd) refl,
    rw no_memory (refl, (xs, same, l, head, tail)),
  )
  | inr memory ↦ (
    (pos (suc e), record t { heap = write t.heap q (some (record { cmd = c; next = null })) }),
    (let locked : (suc e == 0) ≡ false = ground arith in rw (memory, locked, send_cmd) refl),
    rw memory (refl, (xs, same, made-Linked t q c xs fresh l, head, tail)),
  )
]
