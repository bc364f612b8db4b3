-- ===== src/Threads/Protocol/Progress.antt =====
-- Which worker of src/threads.c can do the next step.
use mathlib.Core.Path.{subst}
use likwid_bench.Base.{
  ℕ, zero, suc, ◌≤◌, ◌<◌, ◌≡◌, refl, sym, ◌∙◌, ap, ap₂, Bool, true, false, ◌||◌, ◌⊎◌, inl, inr,
  List, [], ◌∷◌, ◌++◌, ◌==◌, ==→eq, ==→ne, arith, Bool-cases,
}
use likwid_bench.Threads.Protocol.{
  Command, exit, noop, initialize, run, verify, Pc, idle, serve, running, finishing, at_barrier,
  leaving, last_signal, last_barrier, gone, System, Move, initialized, nothing, started, ran,
  signalled, told, invalid, signed_off, waiting, after, Step, send, take, move, meet,
}
use likwid_bench.Threads.Protocol.Changes.{
  pending, todo, Local, took, moved, Change, sent, worked, opened,
}
use likwid_bench.Threads.Protocol.Waits.{exits, left, after-left}

-- A command that ends the worker is among those to come.
unfoldable pub ends : List Command → Bool
ends [] = false
ends (c ∷ p) = let rest = ends p in exits c || rest

-- The worker has ended, or will.
unfoldable pub will_end : Pc → List Command → Bool
will_end leaving p = true
will_end last_signal p = true
will_end last_barrier p = true
will_end gone p = true
will_end (serve c) p = exits c || ends p
will_end other p = ends p

Move-will_end :
    (r : ℕ) {pc pc' : Pc} {d d' : Bool} (p : List Command)
    → Move r pc d pc' d'
    → will_end pc' p ≡ will_end pc p
unfolding will_end exits
Move-will_end r p initialized = refl
Move-will_end r p nothing = refl
Move-will_end r p started = refl
Move-will_end r p ran = refl
Move-will_end r p signalled = refl
Move-will_end r p told = refl
Move-will_end r p invalid = refl
Move-will_end r p signed_off = refl

Local-will_end :
    (r : ℕ) {pc pc' : Pc} {p p' : List Command}
    → Local r pc p pc' p'
    → will_end pc' p' ≡ will_end pc p
unfolding will_end ends
Local-will_end r (took c p) = refl
Local-will_end r (moved p m) = Move-will_end r p m

after-will_end :
    (pc : Pc) (p : List Command) → waiting pc ≡ true → will_end (after pc) p ≡ will_end pc p
unfolding will_end waiting after
after-will_end idle p h = refl
after-will_end (serve c) p h = refl
after-will_end (running zero) p h = refl
after-will_end (running (suc k)) p h = refl
after-will_end finishing p h = refl
after-will_end at_barrier p h = refl
after-will_end leaving p h = refl
after-will_end last_signal p h = refl
after-will_end last_barrier p h = refl
after-will_end gone p h = refl

pub Change-will_end :
    (n : ℕ) (rounds : ℕ → ℕ) (s t : System)
    → Change n rounds s t
    → (i : ℕ) → i < n
    → will_end (t.pc i) (pending t i) ≡ will_end (s.pc i) (pending s i)
Change-will_end n rounds s t (sent fewer met same) i lt = ap₂ will_end (same i).0 (same i).1
Change-will_end n rounds s t (worked j ltj script met local same) i lt =
    elim (Bool-cases (i == j)) [
      | inl self ↦
          subst (λ m. will_end (t.pc m) (pending t m) ≡ will_end (s.pc m) (pending s m))
            (sym (==→eq i j self)) (Local-will_end (rounds j) local)
      | inr other ↦ ap₂ will_end (same i (==→ne i j other)).0 (same i (==→ne i j other)).1
    ]
Change-will_end n rounds s t (opened script met all onward same) i lt =
    ap₂ will_end (onward i lt) (same i) ∙ after-will_end (s.pc i) (pending s i) (all i lt)

-- Where a worker is that has no step of its own: at a barrier, or at its end.
abbrev Still : System → ℕ → Type 0
Still s i = (waiting (s.pc i) ≡ true) ⊎ (s.pc i ≡ gone)

abbrev pub CanStep : ℕ → (ℕ → ℕ) → System → Type 0
CanStep n rounds s = (t : System) × Step n rounds false s t

idle-CanStep :
    (n : ℕ) (rounds : ℕ → ℕ) (s : System) (i : ℕ) (q : List Command)
    → i < n
    → s.pc i ≡ idle
    → s.queue i ≡ q
    → s.script ≡ []
    → ends (q ++ todo i []) ≡ true
    → CanStep n rounds s
unfolding ends todo
idle-CanStep n rounds s i [] lt at same sent_all h = cc
idle-CanStep n rounds s i (c ∷ q) lt at same sent_all h = (_, take i c q lt at same)

unfoldable pub move-CanStep :
    (n : ℕ) (rounds : ℕ → ℕ) (s : System) (i : ℕ) (pc p : Pc) (d : Bool)
    → i < n
    → s.pc i ≡ pc
    → Move (rounds i) pc (s.done i) p d
    → CanStep n rounds s
move-CanStep n rounds s i pc p d lt at m =
    (_, move i lt (subst (λ x. Move (rounds i) x (s.done i) p d) (sym at) m))

unfoldable pub serve-CanStep :
    (n : ℕ) (rounds : ℕ → ℕ) (s : System) (i : ℕ) (c : Command)
    → i < n
    → s.pc i ≡ serve c
    → CanStep n rounds s
unfolding move-CanStep
serve-CanStep n rounds s i exit lt at =
    move-CanStep n rounds s i (serve exit) leaving (s.done i) lt at told
serve-CanStep n rounds s i noop lt at =
    move-CanStep n rounds s i (serve noop) finishing (s.done i) lt at nothing
serve-CanStep n rounds s i initialize lt at =
    move-CanStep n rounds s i (serve initialize) finishing (s.done i) lt at initialized
serve-CanStep n rounds s i run lt at = move-CanStep n rounds s i (serve run) _ true lt at started
serve-CanStep n rounds s i verify lt at =
    move-CanStep n rounds s i (serve verify) leaving (s.done i) lt at invalid

-- A worker takes a command, goes on, or is still, once all is sent.
worker-CanStep :
    (n : ℕ) (rounds : ℕ → ℕ) (s : System) (i : ℕ) (pc : Pc)
    → i < n
    → s.script ≡ []
    → s.pc i ≡ pc
    → will_end pc (pending s i) ≡ true
    → CanStep n rounds s ⊎ Still s i
unfolding will_end waiting
worker-CanStep n rounds s i idle lt all at h =
    inl (idle-CanStep n rounds s i (s.queue i) lt at refl all (rw all at h))
worker-CanStep n rounds s i (serve c) lt all at h = inl (serve-CanStep n rounds s i c lt at)
worker-CanStep n rounds s i (running zero) lt all at h =
    inl (move-CanStep n rounds s i (running 0) finishing (s.done i) lt at ran)
worker-CanStep n rounds s i (running (suc k)) lt all at h = inr (inl (ap waiting at))
worker-CanStep n rounds s i finishing lt all at h =
    inl (move-CanStep n rounds s i finishing at_barrier true lt at signalled)
worker-CanStep n rounds s i at_barrier lt all at h = inr (inl (ap waiting at))
worker-CanStep n rounds s i leaving lt all at h = inr (inl (ap waiting at))
worker-CanStep n rounds s i last_signal lt all at h =
    inl (move-CanStep n rounds s i last_signal last_barrier true lt at signed_off)
worker-CanStep n rounds s i last_barrier lt all at h = inr (inl (ap waiting at))
worker-CanStep n rounds s i gone lt all at h = inr (inr at)

workers-CanStep :
    (n : ℕ) (rounds : ℕ → ℕ) (s : System)
    → s.script ≡ []
    → ((i : ℕ) → i < n → will_end (s.pc i) (pending s i) ≡ true)
    → (m : ℕ) → m ≤ n
    → CanStep n rounds s ⊎ ((i : ℕ) → i < m → Still s i)
workers-CanStep n rounds s all h zero le = inr (λ i lt. absurd (omega arith))
workers-CanStep n rounds s all h (suc m) le =
    elim (worker-CanStep n rounds s m (s.pc m) le all refl (h m le)) [
      | inl can ↦ inl can
      | inr last ↦ elim (workers-CanStep n rounds s all h m (omega arith)) [
        | inl can ↦ inl can
        | inr below ↦ inr λ i lt. elim (Bool-cases (i == m)) [
          | inl self ↦ subst (Still s) (sym (==→eq i m self)) last
          | inr other ↦ below i (omega (arith, ==→ne i m other))
        ]
      ]
    ]

script-CanStep :
    (n : ℕ) (rounds : ℕ → ℕ) (s : System) (l : List (ℕ × Command))
    → s.script ≡ l
    → ((i : ℕ) → i < n → will_end (s.pc i) (pending s i) ≡ true)
    → CanStep n rounds s ⊎ ((i : ℕ) → i < n → Still s i)
script-CanStep n rounds s [] e h = workers-CanStep n rounds s e h n (omega arith)
script-CanStep n rounds s ((i, c) ∷ rest) e h = inl (_, send i c rest e)

left-gone : (r : ℕ) (pc : Pc) (p : List Command) → pc ≡ gone → left r pc p ≡ 0
unfolding left
left-gone r pc p e = ap (λ x. left r x p) e

-- With one number of waits to come for all, the workers are all at the barrier, or all at their end.
level :
    (n : ℕ) (rounds : ℕ → ℕ) (s : System) (w : ℕ)
    → ((i : ℕ) → i < n → Still s i)
    → ((i : ℕ) → i < n → left (rounds i) (s.pc i) (pending s i) ≡ w)
    → ((i : ℕ) → i < n → waiting (s.pc i) ≡ true) ⊎ ((i : ℕ) → i < n → s.pc i ≡ gone)
level n rounds s zero still same = inr λ i lt. elim (still i lt) [
  | inl at ↦ absurd (omega (arith, same i lt, after-left (rounds i) (s.pc i) (pending s i) at))
  | inr done ↦ done
]
level n rounds s (suc w) still same = inl λ i lt. elim (still i lt) [
  | inl at ↦ at
  | inr done ↦ absurd (omega (arith, same i lt, left-gone (rounds i) (s.pc i) (pending s i) done))
]

-- A group whose workers will all end, with one number of waits to come, has ended or goes on.
pub level-CanStep :
    (n : ℕ) (rounds : ℕ → ℕ) (s : System) (w : ℕ)
    → 0 < n
    → ((i : ℕ) → i < n → will_end (s.pc i) (pending s i) ≡ true)
    → ((i : ℕ) → i < n → left (rounds i) (s.pc i) (pending s i) ≡ w)
    → CanStep n rounds s ⊎ ((i : ℕ) → i < n → s.pc i ≡ gone)
level-CanStep n rounds s w pos h same = elim (script-CanStep n rounds s s.script refl h) [
  | inl can ↦ inl can
  | inr still ↦ elim (level n rounds s w still same) [
    | inl at ↦ inl (_, meet pos at)
    | inr done ↦ inr done
  ]
]
