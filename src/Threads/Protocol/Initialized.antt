-- ===== src/Threads/Protocol/Initialized.antt =====
-- The order of the commands over the workers of src/threads.c.
use mathlib.Core.Path.{subst}
use likwid_bench.Base.{
  ℕ, zero, suc, ◌<◌, ◌≡◌, refl, sym, ◌∙◌, ap₂, Bool, true, false, ◌||◌, ◌⊎◌, inl, inr, List, [],
  ◌∷◌, ◌==◌, ==→eq, ==→ne, arith, Bool-cases,
}
use likwid_bench.Threads.Protocol.{
  Command, exit, initialize, run, Pc, idle, serve, running, finishing, at_barrier, leaving,
  last_signal, last_barrier, gone, System, Move, initialized, nothing, started, ran, signalled,
  told, invalid, signed_off, waiting, after, Reach, here, next, created,
}
use likwid_bench.Threads.Protocol.Changes.{
  pending, Local, took, moved, Change, sent, worked, opened, Step-Change,
}
use likwid_bench.Threads.Protocol.Runs.{pending-created}

unfoldable pub is_initialize : Command → Bool
is_initialize initialize = true
is_initialize other = false

unfoldable pub initializes : List Command → Bool
initializes [] = false
initializes (c ∷ p) = let rest = initializes p in is_initialize c || rest

-- The worker has an initialization to do.
unfoldable pub to_initialize : Pc → List Command → Bool
to_initialize (serve c) p = is_initialize c || initializes p
to_initialize other p = initializes p

-- The stages before the barrier opens for the first time.
data Early : Pc → List Command → Type 0 where
  waits : Early idle (initialize ∷ run ∷ exit ∷ [])
  serves : Early (serve initialize) (run ∷ exit ∷ [])
  ends : Early finishing (run ∷ exit ∷ [])
  meets : Early at_barrier (run ∷ exit ∷ [])

Local-Early :
    {r : ℕ} {pc pc' : Pc} {p p' : List Command} → Local r pc p pc' p' → Early pc p → Early pc' p'
Local-Early (took _ _) waits = serves
Local-Early (moved _ initialized) serves = ends
Local-Early (moved _ signalled) ends = meets
Local-Early (moved _ nothing) e = elim e [ ]
Local-Early (moved _ started) e = elim e [ ]
Local-Early (moved _ ran) e = elim e [ ]
Local-Early (moved _ told) e = elim e [ ]
Local-Early (moved _ invalid) e = elim e [ ]
Local-Early (moved _ signed_off) e = elim e [ ]

Move-to_initialize :
    (r : ℕ) {pc pc' : Pc} {d d' : Bool} (p : List Command)
    → Move r pc d pc' d'
    → to_initialize pc p ≡ false
    → to_initialize pc' p ≡ false
unfolding to_initialize is_initialize
Move-to_initialize r p initialized h = cc
Move-to_initialize r p nothing h = h
Move-to_initialize r p started h = h
Move-to_initialize r p ran h = h
Move-to_initialize r p signalled h = h
Move-to_initialize r p told h = h
Move-to_initialize r p invalid h = h
Move-to_initialize r p signed_off h = h

Local-to_initialize :
    {r : ℕ} {pc pc' : Pc} {p p' : List Command}
    → Local r pc p pc' p'
    → to_initialize pc p ≡ false
    → to_initialize pc' p' ≡ false
unfolding to_initialize initializes
Local-to_initialize (took c p) h = h
Local-to_initialize {r} (moved p m) h = Move-to_initialize r p m h

after-Early :
    {pc : Pc} {p : List Command}
    → Early pc p
    → waiting pc ≡ true
    → to_initialize (after pc) p ≡ false
unfolding to_initialize initializes is_initialize waiting after
after-Early waits h = cc
after-Early serves h = cc
after-Early ends h = cc
after-Early meets h = refl

after-to_initialize :
    (pc : Pc) (p : List Command)
    → waiting pc ≡ true
    → to_initialize pc p ≡ false
    → to_initialize (after pc) p ≡ false
unfolding to_initialize waiting after
after-to_initialize idle p w h = cc
after-to_initialize (serve c) p w h = cc
after-to_initialize (running zero) p w h = cc
after-to_initialize (running (suc k)) p w h = h
after-to_initialize finishing p w h = cc
after-to_initialize at_barrier p w h = h
after-to_initialize leaving p w h = h
after-to_initialize last_signal p w h = cc
after-to_initialize last_barrier p w h = h
after-to_initialize gone p w h = cc

-- Either every worker is at an early stage, or none has an initialization to do.
abbrev AllEarly : ℕ → System → Type 0
AllEarly n s = (i : ℕ) → i < n → Early (s.pc i) (pending s i)

abbrev AllPast : ℕ → System → Type 0
AllPast n s = (i : ℕ) → i < n → to_initialize (s.pc i) (pending s i) ≡ false

-- A property of a worker that its own steps keep stands until the barrier opens.
keeps :
    (P : Pc → List Command → Type 0) (n : ℕ) (rounds : ℕ → ℕ) (s t : System)
    → ((r : ℕ) (pc pc' : Pc) (p p' : List Command) → Local r pc p pc' p' → P pc p → P pc' p')
    → Change n rounds s t
    → t.met ≡ s.met
    → ((i : ℕ) → i < n → P (s.pc i) (pending s i))
    → (i : ℕ) → i < n
    → P (t.pc i) (pending t i)
keeps P n rounds s t local (sent fewer met same) closed h i lt =
    subst (λ x. P x (pending t i)) (sym (same i).0) (subst (P (s.pc i)) (sym (same i).1) (h i lt))
keeps P n rounds s t local (worked j ltj script met l same) closed h i lt =
    elim (Bool-cases (i == j)) [
      | inl self ↦
          subst (λ m. P (t.pc m) (pending t m)) (sym (==→eq i j self))
            (local (rounds j) _ _ _ _ l (h j ltj))
      | inr other ↦
          let (at, plan) = same i (==→ne i j other) in
          subst (λ x. P x (pending t i)) (sym at) (subst (P (s.pc i)) (sym plan) (h i lt))
    ]
keeps P n rounds s t local (opened script met all onward same) closed h i lt =
    absurd (omega (arith, met, closed))

keeps-AllPast :
    (n : ℕ) (rounds : ℕ → ℕ) (s t : System)
    → Change n rounds s t
    → t.met ≡ s.met
    → AllPast n s
    → AllPast n t
keeps-AllPast n rounds s t =
    keeps (λ pc p. to_initialize pc p ≡ false) n rounds s t
      (λ r pc pc' p p' l. Local-to_initialize l)

keeps-AllEarly :
    (n : ℕ) (rounds : ℕ → ℕ) (s t : System)
    → Change n rounds s t
    → t.met ≡ s.met
    → AllEarly n s
    → AllEarly n t
keeps-AllEarly n rounds s t = keeps Early n rounds s t (λ r pc pc' p p' l. Local-Early l)

Change-AllPast :
    (n : ℕ) (rounds : ℕ → ℕ) (s t : System) → Change n rounds s t → AllPast n s → AllPast n t
Change-AllPast n rounds s t (sent fewer met same) h =
    keeps-AllPast n rounds s t (sent fewer met same) met h
Change-AllPast n rounds s t (worked j ltj script met l same) h =
    keeps-AllPast n rounds s t (worked j ltj script met l same) met h
Change-AllPast n rounds s t (opened script met all onward same) h = λ i lt.
    ap₂ to_initialize (onward i lt) (same i)
    ∙ after-to_initialize (s.pc i) (pending s i) (all i lt) (h i lt)

Change-AllEarly :
    (n : ℕ) (rounds : ℕ → ℕ) (s t : System)
    → Change n rounds s t
    → AllEarly n s
    → AllEarly n t ⊎ AllPast n t
Change-AllEarly n rounds s t (sent fewer met same) h =
    inl (keeps-AllEarly n rounds s t (sent fewer met same) met h)
Change-AllEarly n rounds s t (worked j ltj script met l same) h =
    inl (keeps-AllEarly n rounds s t (worked j ltj script met l same) met h)
Change-AllEarly n rounds s t (opened script met all onward same) h =
    inr λ i lt. ap₂ to_initialize (onward i lt) (same i) ∙ after-Early (h i lt) (all i lt)

Reach-phase :
    {n : ℕ} {rounds : ℕ → ℕ} {s : System} {k : ℕ}
    → Reach n rounds false (created n) k s
    → AllEarly n s ⊎ AllPast n s
unfolding created
Reach-phase {n} here = inl λ i lt. subst (Early idle) (sym (pending-created n i lt)) waits
Reach-phase {n} {rounds} (next {s} {t} r st) = elim (Reach-phase r) [
  | inl early ↦ Change-AllEarly n rounds s t (Step-Change st) early
  | inr past ↦ inr (Change-AllPast n rounds s t (Step-Change st) past)
]

not_early : {pc : Pc} {p : List Command} (k : ℕ) → pc ≡ running k → Early pc p → ⊥
not_early k e waits = cc
not_early k e serves = cc
not_early k e ends = cc
not_early k e meets = cc

-- While a worker is in its benchmark, no worker of the group is at an initialization or has one to
-- come, however the steps of the workers and of the main thread follow each other, if no wait for a
-- command times out.
pub running-to_initialize :
    {n : ℕ} {rounds : ℕ → ℕ} {s : System} {steps : ℕ}
    → Reach n rounds false (created n) steps s
    → (i j left : ℕ) → i < n
    → j < n
    → s.pc i ≡ running left
    → to_initialize (s.pc j) (pending s j) ≡ false
running-to_initialize r i j left lti ltj at = elim (Reach-phase r) [
  | inl early ↦ absurd (not_early left at (early i lti))
  | inr past ↦ past j ltj
]
