-- ===== src/Topology/Segments.antt =====
-- The output of a level of the sort of src/topology.c, in parts by value.
use likwid_bench.Base.{
  ℕ, zero, suc, ◌+◌, ◌-◌, ◌<◌, ◌≤◌, ◌≡◌, refl, ◌∙◌, ap, ap₂, List, [], ◌∷◌, ◌++◌, length,
  length-set, get_or, set, take, drop, replicate, arith,
}
use likwid_bench.Topology.{bump, add_up, sums}
use likwid_bench.Topology.Buckets.{cons_at, concat}

abbrev pub total : List ℕ → ℕ
total [] = 0
total (c ∷ sizes) = c + total sizes

-- The part of the output for each value: entries that are still to come, and entries in place.
abbrev pub Segments : Type 0 → Type 0
Segments A = List (List A × List A)

module _ {A : Type 0} where
  abbrev pub flat : Segments A → List A
  flat [] = []
  flat ((g, d) ∷ s) = g ++ (d ++ flat s)

  -- Where the entries to come end, from a start on.
  abbrev pub counts : ℕ → Segments A → List ℕ
  counts b [] = []
  counts b ((g, d) ∷ s) = (b + length g) ∷ counts (b + length g + length d) s

  abbrev pub gaps : Segments A → List ℕ
  gaps [] = []
  gaps ((g, d) ∷ s) = length g ∷ gaps s

  abbrev pub placed : Segments A → List (List A)
  placed [] = []
  placed ((g, d) ∷ s) = d ∷ placed s

  abbrev pub drop_last : List A → List A
  drop_last [] = []
  drop_last (x ∷ []) = []
  drop_last (x ∷ y ∷ xs) = x ∷ drop_last (y ∷ xs)

  length-drop_last : (xs : List A) → 0 < length xs → suc (length (drop_last xs)) ≡ length xs
  length-drop_last [] pos = absurd (omega arith)
  length-drop_last (x ∷ []) pos = refl
  length-drop_last (x ∷ y ∷ xs) pos = ap suc (length-drop_last (y ∷ xs) (omega arith))

  -- Where the next entry of a value is put.
  abbrev pub at : Segments A → ℕ → ℕ
  at [] v = 0
  at ((g, d) ∷ s) zero = length (drop_last g)
  at ((g, d) ∷ s) (suc v) = length g + (length d + at s v)

  abbrev pub fill : Segments A → ℕ → A → Segments A
  fill [] v x = []
  fill ((g, d) ∷ s) zero x = (drop_last g, x ∷ d) ∷ s
  fill ((g, d) ∷ s) (suc v) x = (g, d) ∷ fill s v x

  length-take : (n : ℕ) (xs : List A) → n ≤ length xs → length (take n xs) ≡ n
  length-take zero xs le = refl
  length-take (suc n) [] le = absurd (omega arith)
  length-take (suc n) (x ∷ xs) le = ap suc (length-take n xs (omega arith))

  take-drop : (n : ℕ) (xs : List A) → take n xs ++ drop n xs ≡ xs
  take-drop zero xs = refl
  take-drop (suc n) [] = refl
  take-drop (suc n) (x ∷ xs) = ap (◌∷◌ x) (take-drop n xs)

  length-drop : (n : ℕ) (xs : List A) → length (drop n xs) ≡ length xs - n
  length-drop zero xs = omega arith
  length-drop (suc n) [] = omega arith
  length-drop (suc n) (x ∷ xs) = omega (arith, length-drop n xs)

  set-append :
      (xs ys : List A) (i : ℕ) (x : A) → set (xs ++ ys) (length xs + i) x ≡ xs ++ set ys i x
  set-append [] ys i x = ap (λ j. set ys j x) (omega arith)
  set-append (y ∷ xs) ys i x =
      ap (λ j. set (y ∷ xs ++ ys) j x) {x = suc (length xs) + i} {y = suc (length xs + i)}
        (omega arith)
      ∙ ap (◌∷◌ y) (set-append xs ys i x)

  -- The last place before `ys` is written.
  set-last :
      (xs ys : List A) (x : A)
      → 0 < length xs
      → set (xs ++ ys) (length (drop_last xs)) x ≡ drop_last xs ++ x ∷ ys
  set-last [] ys x pos = absurd (omega arith)
  set-last (y ∷ []) ys x pos = refl
  set-last (y ∷ z ∷ xs) ys x pos = ap (◌∷◌ y) (set-last (z ∷ xs) ys x (omega arith))

  pub set-flat :
      (s : Segments A) (v : ℕ) (x : A)
      → 0 < get_or (gaps s) v 0
      → set (flat s) (at s v) x ≡ flat (fill s v x)
  set-flat [] v x pos = refl
  set-flat ((g, d) ∷ s) zero x pos = set-last g (d ++ flat s) x pos
  set-flat ((g, d) ∷ s) (suc v) x pos =
      set-append g (d ++ flat s) (length d + at s v) x
      ∙ ap (λ l. g ++ l) (set-append d (flat s) (at s v) x ∙ ap (λ l. d ++ l) (set-flat s v x pos))

  pub get_or-counts :
      (b : ℕ) (s : Segments A) (v : ℕ)
      → 0 < get_or (gaps s) v 0
      → get_or (counts b s) v 0 ≡ suc (b + at s v)
  get_or-counts b [] v pos = absurd (omega arith)
  get_or-counts b ((g, d) ∷ s) zero pos = omega (arith, length-drop_last g pos)
  get_or-counts b ((g, d) ∷ s) (suc v) pos =
      omega (arith, get_or-counts (b + length g + length d) s v pos)

  pub counts-fill :
      (b : ℕ) (s : Segments A) (v : ℕ) (x : A)
      → 0 < get_or (gaps s) v 0
      → counts b (fill s v x) ≡ set (counts b s) v (b + at s v)
  counts-fill b [] v x pos = refl
  counts-fill b ((g, d) ∷ s) zero x pos =
      let next : b + length (drop_last g) + suc (length d) ≡ b + length g + length d =
        omega (arith, length-drop_last g pos) in
      ap (λ e. (b + length (drop_last g)) ∷ counts e s) next
  counts-fill b ((g, d) ∷ s) (suc v) x pos = ap (◌∷◌ (b + length g)) (
      counts-fill (b + length g + length d) s v x pos
      ∙ ap (set (counts (b + length g + length d) s) v) {x = b + length g + length d + at s v}
          {y = b + (length g + (length d + at s v))} (omega arith))

  pub gaps-fill :
      (s : Segments A) (v : ℕ) (x : A) (sizes : List ℕ)
      → v < length sizes
      → gaps s ≡ bump sizes v
      → gaps (fill s v x) ≡ sizes
  unfolding bump
  gaps-fill s v x [] lt e = absurd (omega arith)
  gaps-fill [] zero x (c ∷ sizes) lt e = cc
  gaps-fill [] (suc v) x (c ∷ sizes) lt e = cc
  gaps-fill ((g, d) ∷ s) zero x (c ∷ sizes) lt e =
      let head : length g ≡ suc c = ap (λ l. get_or l 0 0) e in
      let shorter : length (drop_last g) ≡ c = omega (arith, length-drop_last g (omega arith)) in
      ap₂ ◌∷◌ shorter (ap (drop 1) e)
  gaps-fill ((g, d) ∷ s) (suc v) x (c ∷ sizes) lt e =
      ap₂ ◌∷◌ (ap (λ l. get_or l 0 0) e) (gaps-fill s v x sizes (omega arith) (ap (drop 1) e))

  pub placed-fill : (s : Segments A) (v : ℕ) (x : A) → placed (fill s v x) ≡ cons_at (placed s) v x
  placed-fill [] v x = refl
  placed-fill ((g, d) ∷ s) zero x = refl
  placed-fill ((g, d) ∷ s) (suc v) x = ap (◌∷◌ d) (placed-fill s v x)

  -- With nothing to come, only what is in place is left.
  pub flat-placed : (s : Segments A) (n : ℕ) → gaps s ≡ replicate n 0 → flat s ≡ concat (placed s)
  flat-placed [] n e = refl
  flat-placed (([], d) ∷ s) zero e = cc
  flat-placed (([], d) ∷ s) (suc n) e = ap (λ l. d ++ l) (flat-placed s n (ap (drop 1) e))
  flat-placed ((y ∷ g, d) ∷ s) zero e = cc
  flat-placed ((y ∷ g, d) ∷ s) (suc n) e =
      let none_left : suc (length g) ≡ 0 = ap (λ l. get_or l 0 0) e in absurd (omega arith)

  -- The output cut into pieces of the sizes.
  abbrev pub chunks : List ℕ → List A → Segments A
  chunks [] out = []
  chunks (c ∷ sizes) out = (take c out, []) ∷ chunks sizes (drop c out)

  pub gaps-chunks :
      (sizes : List ℕ) (out : List A) → total sizes ≤ length out → gaps (chunks sizes out) ≡ sizes
  gaps-chunks [] out le = refl
  gaps-chunks (c ∷ sizes) out le =
      ap₂ ◌∷◌ (length-take c out (omega arith))
        (gaps-chunks sizes (drop c out) (omega (arith, length-drop c out)))

  pub flat-chunks :
      (sizes : List ℕ) (out : List A) → total sizes ≡ length out → flat (chunks sizes out) ≡ out
  flat-chunks [] [] e = refl
  flat-chunks [] (x ∷ out) e = absurd (omega arith)
  flat-chunks (c ∷ sizes) out e =
      ap (λ l. take c out ++ l) (flat-chunks sizes (drop c out) (omega (arith, length-drop c out)))
      ∙ take-drop c out

  pub placed-chunks :
      (sizes : List ℕ) (out : List A) → placed (chunks sizes out) ≡ replicate (length sizes) []
  placed-chunks [] out = refl
  placed-chunks (c ∷ sizes) out = ap (◌∷◌ []) (placed-chunks sizes (drop c out))

  pub counts-chunks :
      (b : ℕ) (sizes : List ℕ) (out : List A)
      → total sizes ≤ length out
      → counts b (chunks sizes out) ≡ add_up b sizes
  unfolding add_up
  counts-chunks b [] out le = refl
  counts-chunks b (c ∷ sizes) out le =
      let ends : b + length (take c out) ≡ c + b = omega (arith, length-take c out (omega arith)) in
      let next : b + length (take c out) + 0 ≡ c + b = omega arith in
      ap₂ ◌∷◌ ends (
        ap (λ e. counts e (chunks sizes (drop c out))) next
        ∙ counts-chunks (c + b) sizes (drop c out) (omega (arith, length-drop c out)))

pub sums_lem : (sizes : List ℕ) → sums sizes ≡ add_up 0 sizes
unfolding sums add_up
sums_lem [] = refl
sums_lem (c ∷ sizes) = ap (λ e. e ∷ add_up e sizes) (omega arith)

pub total-bump :
    (sizes : List ℕ) (v : ℕ) → v < length sizes → total (bump sizes v) ≡ suc (total sizes)
unfolding bump
total-bump [] v lt = absurd (omega arith)
total-bump (c ∷ sizes) zero lt = omega arith
total-bump (c ∷ sizes) (suc v) lt = omega (arith, total-bump sizes v (omega arith))

pub length-bump : (sizes : List ℕ) (v : ℕ) → length (bump sizes v) ≡ length sizes
unfolding bump
length-bump sizes v = length-set sizes v (suc (get_or sizes v 0))

pub get_or-bump : (sizes : List ℕ) (v : ℕ) → v < length sizes → 0 < get_or (bump sizes v) v 0
unfolding bump
get_or-bump [] v lt = absurd (omega arith)
get_or-bump (c ∷ sizes) zero lt = omega arith
get_or-bump (c ∷ sizes) (suc v) lt = get_or-bump sizes v (omega arith)
