-- ===== src/Topology/Counting.antt =====
-- A level of the sort of src/topology.c: the counts and the places of the entries.
use mathlib.Core.Path.{subst}
use likwid_bench.Base.{
  ℕ, zero, suc, ◌+◌, ◌-◌, ◌<◌, ◌≤◌, ◌≡◌, refl, sym, ◌∙◌, ap, ap₂, inl, inr, Option-cases, some,
  List, [], ◌∷◌, ◌++◌, length, length-replicate, length-set, get_elem?, get_or, set, take, drop,
  replicate, All, arith,
}
use likwid_bench.Topology.{bump, sums, tally, place}
use likwid_bench.Topology.Buckets.{cons_at, concat, buckets, InRange}
use likwid_bench.Topology.Segments.{
  total, Segments, flat, counts, gaps, placed, at, fill, chunks, set-flat, get_or-counts,
  counts-fill, gaps-fill, placed-fill, flat-placed, gaps-chunks, flat-chunks, placed-chunks,
  counts-chunks, sums_lem, total-bump, length-bump, get_or-bump,
}

-- An entry with what is before and behind it.
split_at :
    {A : Type 0} (P : A → Type 0) (xs : List A) (i : ℕ)
    → i < length xs
    → All P xs
    → (x : A) × (get_elem? xs i ≡ some x)
      × (take (suc i) xs ≡ take i xs ++ x ∷ [])
      × (drop i xs ≡ x ∷ drop (suc i) xs)
      × P x
split_at P [] i lt h = absurd (omega arith)
split_at P (x ∷ xs) zero lt h = (x, refl, refl, refl, h.0)
split_at P (x ∷ xs) (suc i) lt h =
    let (y, found, before, behind, p) = split_at P xs i (omega arith) h.1 in
    (y, found, ap (◌∷◌ x) before, behind, p)

take-length : {A : Type 0} (xs : List A) → take (length xs) xs ≡ xs
take-length [] = refl
take-length (x ∷ xs) = ap (◌∷◌ x) (take-length xs)

drop-length : {A : Type 0} (xs : List A) → drop (length xs) xs ≡ []
drop-length [] = refl
drop-length (x ∷ xs) = drop-length xs

total-replicate : (n : ℕ) → total (replicate n 0) ≡ 0
total-replicate zero = refl
total-replicate (suc n) = omega (arith, total-replicate n)

module _ {A : Type 0} (key : A → ℕ) (min_val n : ℕ) where
  tally-snoc :
      (xs : List A) (x : A) (count : List ℕ)
      → tally key min_val (xs ++ x ∷ []) count ≡ bump (tally key min_val xs count) (key x - min_val)
  unfolding tally
  tally-snoc [] x count = refl
  tally-snoc (y ∷ xs) x count = tally-snoc xs x (bump count (key y - min_val))

  length-tally : (xs : List A) (count : List ℕ) → length (tally key min_val xs count) ≡ length count
  unfolding tally
  length-tally [] count = refl
  length-tally (x ∷ xs) count =
      length-tally xs (bump count (key x - min_val)) ∙ length-bump count (key x - min_val)

  length-sizes : (xs : List A) → length (tally key min_val xs (replicate n 0)) ≡ n
  length-sizes xs = length-tally xs (replicate n 0) ∙ length-replicate n 0

  total-tally :
      (xs : List A) (count : List ℕ)
      → All (InRange key min_val n) xs
      → length count ≡ n
      → total (tally key min_val xs count) ≡ total count + length xs
  unfolding tally
  total-tally [] count h e = omega arith
  total-tally (x ∷ xs) count h e =
      let v : ℕ = key x - min_val in
      let rest = total-tally xs (bump count v) h.1 (length-bump count v ∙ e) in
      omega (arith, rest, total-bump count v (omega (arith, h.0.1, e)))

  -- The entries from `i` on are in place.
  place-buckets :
      (input : List A) (i : ℕ) (s : Segments A)
      → All (InRange key min_val n) input
      → i ≤ length input
      → gaps s ≡ tally key min_val (take i input) (replicate n 0)
      → placed s ≡ buckets key min_val n (drop i input)
      → place key min_val input i (counts 0 s) (flat s) ≡ concat (buckets key min_val n input)
  unfolding place tally buckets
  place-buckets input zero s h le gap done = flat-placed s n gap ∙ ap concat done
  place-buckets input (suc i) s h le gap done =
      let (x, found, before, behind, inside) = split_at (InRange key min_val n) input i le h in
      let v : ℕ = key x - min_val in
      let sizes : List ℕ = tally key min_val (take i input) (replicate n 0) in
      let gap' : gaps s ≡ bump sizes v =
        gap
        ∙ ap (λ l. tally key min_val l (replicate n 0)) before
        ∙ tally-snoc (take i input) x (replicate n 0) in
      let room : v < length sizes = omega (arith, inside.1, length-sizes (take i input)) in
      let some_gap : 0 < get_or (gaps s) v 0 =
        subst (λ g. 0 < get_or g v 0) (sym gap') (get_or-bump sizes v room) in
      let c : get_or (counts 0 s) v 0 - 1 ≡ at s v = omega (arith, get_or-counts 0 s v some_gap) in
      rw (found, c, place)
        (ap₂ (place key min_val input i)
            (sym (counts-fill 0 s v x some_gap ∙ ap (set (counts 0 s) v) (omega arith)))
            (set-flat s v x some_gap)
          ∙ place-buckets input i (fill s v x) h (omega arith) (gaps-fill s v x sizes room gap') (
              placed-fill s v x
              ∙ ap (λ l. cons_at l v x) done
              ∙ ap (buckets key min_val n) (sym behind)))

  pub length-place :
      (input : List A) (i : ℕ) (count : List ℕ) (out : List A)
      → length (place key min_val input i count out) ≡ length out
  unfolding place
  length-place input zero count out = refl
  length-place input (suc i) count out = elim (Option-cases (get_elem? input i)) [
    | inl e ↦ rw (e, place) refl
    | inr (x, e) ↦
        let c : ℕ = get_or count (key x - min_val) 0 - 1 in
        rw (e, place)
          (length-place input i (set count (key x - min_val) c) (set out c x) ∙ length-set out c x)
  ]

  pub place-sums :
      (input out : List A)
      → All (InRange key min_val n) input
      → length out ≡ length input
      → place key min_val input (length input) (sums (tally key min_val input (replicate n 0))) out
        ≡ concat (buckets key min_val n input)
  unfolding buckets
  place-sums input out h e =
      let sizes : List ℕ = tally key min_val input (replicate n 0) in
      let all : total sizes ≡ length out =
        omega (
          arith,
          e,
          total-replicate n,
          total-tally input (replicate n 0) h (length-replicate n 0),
        ) in
      let start = counts-chunks 0 sizes out (omega (arith, all)) in
      ap₂ (place key min_val input (length input)) (sums_lem sizes ∙ sym start)
        (sym (flat-chunks sizes out all))
      ∙ place-buckets input (length input) (chunks sizes out) h (omega arith)
          (gaps-chunks sizes out (omega (arith, all))
            ∙ ap (λ l. tally key min_val l (replicate n 0)) (sym (take-length input)))
          (placed-chunks sizes out
            ∙ ap (λ k. replicate k []) (length-sizes input)
            ∙ ap (buckets key min_val n) (sym (drop-length input)))
