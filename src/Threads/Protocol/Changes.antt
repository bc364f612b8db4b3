-- ===== src/Threads/Protocol/Changes.antt =====
-- What a step of the workers of src/threads.c changes, seen from each worker: where it stands, and
-- the commands that it still gets.
use likwid_bench.Base.{
  ℕ, suc, ◌<◌, ◌≡◌, ◌≢◌, refl, sym, ◌∙◌, ap, Bool, true, false, List, [], ◌∷◌, ◌++◌, append_assoc,
  length, ◌==◌, ==→eq, ==_self, ltb, if◌then◌else◌, arith, Bool-cases, inl, inr,
}
use likwid_bench.Threads.Protocol.{
  Command, Pc, idle, serve, System, update, Move, waiting, after, Step, send, take, time_out, move,
  meet,
}

-- The commands of a script for one worker.
unfoldable pub todo : ℕ → List (ℕ × Command) → List Command
todo i [] = []
todo i ((j, c) ∷ rest) = let more = todo i rest in if j == i then c ∷ more else more

-- What a worker has still to take: its queue, and what is still to be sent to it.
abbrev pub pending : System → ℕ → List Command
pending s i = s.queue i ++ todo i s.script

-- A step of one worker that is no wait.
pub data Local (rounds : ℕ) : Pc → List Command → Pc → List Command → Type 0 where
  took : (c : Command) (p : List Command) → Local rounds idle (c ∷ p) (serve c) p
  moved :
      {pc pc' : Pc} {d d' : Bool} (p : List Command)
      → Move rounds pc d pc' d'
      → Local rounds pc p pc' p

abbrev pub Same : System → System → ℕ → Type 0
Same s t i = (t.pc i ≡ s.pc i) × (pending t i ≡ pending s i)

pub data Change (n : ℕ) (rounds : ℕ → ℕ) (s t : System) : Type 0 where
  sent :
      suc (length t.script) ≡ length s.script
      → t.met ≡ s.met
      → ((i : ℕ) → Same s t i)
      → Change n rounds s t
  worked :
      (j : ℕ)
      → j < n
      → t.script ≡ s.script
      → t.met ≡ s.met
      → Local (rounds j) (s.pc j) (pending s j) (t.pc j) (pending t j)
      → ((i : ℕ) → i ≢ j → Same s t i)
      → Change n rounds s t
  opened :
      t.script ≡ s.script
      → t.met ≡ suc s.met
      → ((i : ℕ) → i < n → waiting (s.pc i) ≡ true)
      → ((i : ℕ) → i < n → t.pc i ≡ after (s.pc i))
      → ((i : ℕ) → pending t i ≡ pending s i)
      → Change n rounds s t

module _ {ℓ} {A : Type ℓ} where
  update_self : (f : ℕ → A) (i : ℕ) (a : A) → update f i a i ≡ a
  update_self f i a = rw (==_self i) refl

  update_other : (f : ℕ → A) (i : ℕ) (a : A) (j : ℕ) → j ≢ i → update f i a j ≡ f j
  update_other f i a j other = let e : (i == j) ≡ false = ground arith in rw e refl

pending-send :
    (s : System) (i : ℕ) (c : Command) (rest : List (ℕ × Command)) (j : ℕ)
    → s.script ≡ (i, c) ∷ rest
    → update s.queue i (s.queue i ++ c ∷ []) j ++ todo j rest ≡ pending s j
unfolding todo
pending-send s i c rest j e = elim (Bool-cases (i == j)) [
  | inl here ↦
      rw (here, e, todo)
        (rw here (
          ap (λ q. (q ++ c ∷ []) ++ todo j rest) (ap s.queue (==→eq i j here))
          ∙ append_assoc (s.queue j) (c ∷ []) (todo j rest)))
  | inr other ↦ rw (other, e, todo) (rw other refl)
]

pub Step-Change :
    {n : ℕ} {rounds : ℕ → ℕ} {s t : System} → Step n rounds false s t → Change n rounds s t
Step-Change {s} (send i c rest e) =
    sent (sym (ap length e)) refl (λ j. (refl, pending-send s i c rest j e))
Step-Change {s} (take i c rest lt at q) =
    worked i lt refl refl (rw (at, q, ==_self i) (took c (rest ++ todo i s.script))) (λ j other. (
      update_other s.pc i (serve c) j other,
      ap (λ l. l ++ todo j s.script) (update_other s.queue i rest j other),
    ))
Step-Change (time_out i never lt at q) = cc
Step-Change {s} (move i {p} lt m) =
    worked i lt refl refl (rw (==_self i) (moved (pending s i) m))
      (λ j other. (update_other s.pc i p j other, refl))
Step-Change {n} (meet pos all) =
    opened refl refl all (λ i lt. (let e : ltb i n ≡ true = ground arith in rw e refl)) (λ i. refl)
