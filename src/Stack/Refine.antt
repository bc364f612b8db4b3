-- ===== src/Stack/Refine.antt =====
-- The array of src/stack.c and the bounded list of `Spec`, under sequences of calls.
use likwid_bench.Base.{
  ℕ, suc, ◌+◌, ◌-◌, ◌≤◌, ◌<◌, ◌≡◌, refl, ap, ◌∙◌, Option, none, some, false, true, List, [], ◌∷◌,
  arith, ok, length, set, get_or, length-set, get_or-set_self, get_or-set_ne, Bool-cases, inl, inr,
  leb, ltb,
}
use likwid_bench.Base.Int.{pos}
use likwid_bench.Stack.{Stack, Malloc, init, push, pop, top, size, free, write, top_of}
use likwid_bench.Stack.Spec
use likwid_bench.Stack.Spec.{
  Lifo, head_of, tail_of, Op, Reply, push_op, pop_op, top_op, size_op, free_op, status, value,
  count, void,
}

module _ {ℓ} {A : Type ℓ} where
  -- One call on `&s`.
  abbrev pub step : Stack A → Op A → Reply A × Option (Stack A)
  step s (push_op v) = let (r, s') = push (some s) v in (status r, s')
  step s pop_op = let (v, s') = pop (some s) in (value v, s')
  step s top_op = (value (top (some s)), some s)
  step s size_op = (count (size (some s)), some s)
  step s free_op = (void, free (some s))

  unfoldable pub run : Option (Stack A) → List (Op A) → List (Reply A)
  run s [] = []
  run none (op ∷ ops) = []
  run (some s) (op ∷ ops) = let (r, s') = step s op in r ∷ run s' ops

  -- The slots below `top` hold the items, the topmost last.
  abbrev pub Filled : List (Option A) → List A → Type ℓ
  Filled slots [] = Unit
  Filled slots (x ∷ xs) = (get_or slots (length xs) none ≡ some x) × Filled slots xs

  abbrev pub Slots : Option (List (Option A)) → ℕ → List A → Type ℓ
  Slots none n xs = (xs ≡ []) × (n ≡ 0)
  Slots (some slots) n xs = (length slots ≡ n) × Filled slots xs

  pub record Represents (s : Stack A) (l : Lifo A) : Type ℓ where
    pub cap : s.size ≡ l.cap
    pub depth : s.depth ≡ length l.items
    pub fits : length l.items ≤ l.cap
    pub slots : Slots s.content s.size l.items

  -- A write at or above `top` leaves the items alone.
  Filled-set :
      (slots : List (Option A)) (xs : List A) (i : ℕ) (v : Option A)
      → length xs ≤ i
      → Filled slots xs
      → Filled (set slots i v) xs
  Filled-set slots [] i v h f = tt
  Filled-set slots (x ∷ xs) i v h f = (
    get_or-set_ne slots i (length xs) v none (omega arith) ∙ f.0,
    Filled-set slots xs i v (omega arith) f.1,
  )

  -- `stackInit` with a positive size, when `malloc` delivers that many slots, makes an empty stack of
  -- that capacity, whatever `*s` held before.
  init-Represents :
      (malloc : Malloc A) (s : Stack A) (n : ℕ) (slots : List (Option A))
      → 0 < n
      → malloc n ≡ some slots
      → length slots ≡ n
      → (t : Stack A) × (init malloc (some s) (pos n) ≡ (ok tt, some t))
        × Represents t (record { items = []; cap = n })
  unfolding init
  init-Represents malloc s n slots h e l = (
    record { content = some slots; size = n; depth = 0 },
    ground arith,
    record { cap = refl; depth = refl; fits = omega arith; slots = (l, tt) },
  )

  Slots-write :
      (content : Option (List (Option A))) (n : ℕ) (xs : List A) (v : A)
      → length xs < n
      → Slots content n xs
      → Slots (write content (length xs) v) n (v ∷ xs)
  Slots-write none n xs v h s = absurd (omega arith)
  Slots-write (some slots) n xs v h s = (
    length-set slots (length xs) (some v) ∙ s.0,
    (
      get_or-set_self slots (length xs) (some v) none (omega arith),
      Filled-set slots xs (length xs) (some v) (omega arith) s.1,
    ),
  )

  Slots-tail :
      (content : Option (List (Option A))) (n : ℕ) (xs : List A)
      → Slots content n xs
      → Slots content n (tail_of xs)
  Slots-tail content n [] s = s
  Slots-tail none n (x ∷ xs) s = cc
  Slots-tail (some slots) n (x ∷ xs) s = (s.0, s.1.1)

  get_or_pred :
      (slots : List (Option A)) (x : A) (xs : List A)
      → get_or slots (length xs) none ≡ some x
      → get_or slots (suc (length xs) - 1) none ≡ some x
  get_or_pred slots x xs h = let e : suc (length xs) - 1 ≡ length xs = omega arith in rw e h

  top_of-Slots :
      (content : Option (List (Option A))) (n : ℕ) (xs : List A)
      → Slots content n xs
      → top_of content (length xs) ≡ head_of xs
  unfolding top_of
  top_of-Slots none n [] s = refl
  top_of-Slots none n (x ∷ xs) s = cc
  top_of-Slots (some slots) n [] s = refl
  top_of-Slots (some slots) n (x ∷ xs) s = ground (arith, s.1.0, get_or_pred slots x xs)

  -- What one call does: the reply of the specification, and a stack that represents its list.
  abbrev Refines : Stack A → Lifo A → Op A → Type ℓ
  Refines s l op =
      (t : Stack A) × ((step s op).1 ≡ some t)
      × ((step s op).0 ≡ (Spec.step l op).0)
      × Represents t (Spec.step l op).1

  Represents-push :
      (s : Stack A) (l : Lifo A) (v : A)
      → Represents s l
      → s.depth < s.size
      → Represents
          (record s { content = write s.content s.depth v; depth = s.depth + 1 })
          (record l { items = v ∷ l.items })
  Represents-push s l v h room = record {
    cap = h.cap;
    depth = omega arith;
    fits = omega arith;
    slots = rw h.depth (Slots-write s.content s.size l.items v (omega arith) h.slots);
  }

  length-tail_of : (xs : List A) → length (tail_of xs) ≡ length xs - 1
  length-tail_of [] = omega arith
  length-tail_of (x ∷ xs) = omega arith

  Represents-pop :
      (s : Stack A) (l : Lifo A)
      → Represents s l
      → Represents (record s { depth = s.depth - 1 }) (record l { items = tail_of l.items })
  Represents-pop s l h = record {
    cap = h.cap;
    depth = omega (arith, length-tail_of l.items);
    fits = omega (arith, length-tail_of l.items);
    slots = Slots-tail s.content s.size l.items h.slots;
  }

  pop_at :
      (content : Option (List (Option A))) (n d : ℕ) (xs : List A)
      → Slots content n xs
      → d ≡ length xs
      → pop (some (record { content = content; size = n; depth = d }))
        ≡ (head_of xs, some (record { content = content; size = n; depth = d - 1 }))
  unfolding pop
  pop_at content n d [] h e = ground arith
  pop_at none n d (x ∷ xs) h e = cc
  pop_at (some slots) n d (x ∷ xs) h e = rw e (ground (arith, h.1.0, get_or_pred slots x xs))

  push-Refines :
      (s : Stack A) (l : Lifo A) (v : A) → Represents s l → Refines s l (push_op (some v))
  unfolding push Spec.step
  push-Refines s l v h = elim (Bool-cases (leb s.size s.depth)) [
    | inl full ↦
        let e : ltb (length l.items) l.cap ≡ false = ground arith in
        (s, rw full, rw (full, e), rw e h)
    | inr room ↦
        let e : ltb (length l.items) l.cap ≡ true = ground arith in
        (
          record s { content = write s.content s.depth v; depth = s.depth + 1 },
          rw room,
          rw (room, e),
          rw e (Represents-push s l v h (ground arith)),
        )
  ]

  pop-Refines : (s : Stack A) (l : Lifo A) → Represents s l → Refines s l pop_op
  unfolding Spec.step
  pop-Refines s l h =
      let e = pop_at s.content s.size s.depth l.items h.slots h.depth in
      (record s { depth = s.depth - 1 }, rw e, rw e, Represents-pop s l h)

  top-Refines : (s : Stack A) (l : Lifo A) → Represents s l → Refines s l top_op
  unfolding top Spec.step
  top-Refines s l h = (s, refl, rw (h.depth, top_of-Slots s.content s.size l.items h.slots), h)

  step-Refines : (s : Stack A) (l : Lifo A) (op : Op A) → Represents s l → Refines s l op
  unfolding push size free Spec.step
  step-Refines s l (push_op none) h = (s, refl, refl, h)
  step-Refines s l (push_op (some v)) h = push-Refines s l v h
  step-Refines s l pop_op h = pop-Refines s l h
  step-Refines s l top_op h = top-Refines s l h
  step-Refines s l size_op h = (s, refl, ap count h.depth, h)
  step-Refines s l free_op h = (
    record { content = none; size = 0; depth = 0 },
    refl,
    refl,
    record { cap = refl; depth = refl; fits = omega arith; slots = (refl, refl) },
  )

  -- No sequence of calls on a stack that represents a list tells it from that list: every return
  -- value is the one of the bounded LIFO list, the refused pushes and the empty pops included.
  pub run_refines :
      (ops : List (Op A)) (s : Stack A) (l : Lifo A)
      → Represents s l
      → run (some s) ops ≡ Spec.run l ops
  unfolding run Spec.run
  run_refines [] s l h = refl
  run_refines (op ∷ ops) s l h =
      let (t, next, reply, represents) = step-Refines s l op h in
      rw (next, reply, run_refines ops t (Spec.step l op).1 represents)
