-- ===== src/Topology/Sorted.antt =====
-- The order in which `_hwthreads_sort` of src/topology.c returns the hardware threads.
use mathlib.Core.Path.{subst}
use mathlib.Core.List.{Perm}
use mathlib.Core.List.Perm
use likwid_bench.Base.{
  ℕ, zero, suc, ◌+◌, ◌-◌, ◌<◌, ◌≤◌, ◌^◌, ◌≡◌, refl, sym, ◌∙◌, ap, Bool, true, false, some, List, [],
  ◌∷◌, length, get_or, All, All-map, All-get_or, leb, ltb, ◌==◌, if◌then◌else◌, ok, arith,
}
use likwid_bench.Topology.{
  int_max, last_int, HwThread, sort_key, scan, pass, sort_levels, hwthreads_sort,
}
use likwid_bench.Topology.Buckets.{
  concat, Ascends, By, buckets, InRange, perm-buckets, buckets-Ascends, All-buckets, All-concat,
  any-Ascends,
}
use likwid_bench.Topology.Counting.{length-place, place-sums}

-- An `int` that is not negative, and not the largest one.
abbrev pub SmallId : ℕ → Type 0
SmallId k = (2 ^ 31 ≤ k) × (k < last_int)

module _ {A : Type 0} where
  -- By the keys from `lvl` on, `d` of them, the first that differs.
  abbrev pub LexLe : (key : ℕ → A → ℕ) (d lvl : ℕ) → A → A → Type 0
  LexLe key zero lvl x y = Unit
  LexLe key (suc d) lvl x y = By (key lvl) (LexLe key d (suc lvl)) x y

module _ {A : Type 0} (key : A → ℕ) where
  -- What the loop for the bounds finds.
  scan-bounds :
      (xs : List A) (lo hi : ℕ)
      → ((scan key xs lo hi).0 ≤ lo)
        × (hi ≤ (scan key xs lo hi).1)
        × All (λ x. ((scan key xs lo hi).0 ≤ key x) × (key x ≤ (scan key xs lo hi).1)) xs
  unfolding scan
  scan-bounds [] lo hi = (omega arith, omega arith, tt)
  scan-bounds (x ∷ xs) lo hi =
      let lo' : ℕ = if ltb (key x) lo then key x else lo in
      let hi' : ℕ = if ltb hi (key x) then key x else hi in
      let low : lo' ≤ lo = ground arith in
      let low_x : lo' ≤ key x = ground arith in
      let high : hi ≤ hi' = ground arith in
      let high_x : key x ≤ hi' = ground arith in
      let (below, above, inside) = scan-bounds xs lo' hi' in
      (omega arith, omega arith, ((omega arith, omega arith), inside))

  scan-SmallId :
      (xs : List A) (lo hi : ℕ)
      → 2 ^ 31 ≤ lo
      → hi < last_int
      → All (λ x. SmallId (key x)) xs
      → (2 ^ 31 ≤ (scan key xs lo hi).0) × ((scan key xs lo hi).1 < last_int)
  unfolding scan
  scan-SmallId [] lo hi low high h = (low, high)
  scan-SmallId (x ∷ xs) lo hi low high h =
      let (small, big) = h.0 in
      scan-SmallId xs (if ltb (key x) lo then key x else lo) (if ltb hi (key x) then key x else hi)
        (ground arith) (ground arith) h.1

  module _ (alloc : ℕ → Bool) (mem : (k : ℕ) → alloc k ≡ true) where
    pass-some :
        (input out : List A)
        → All (λ x. SmallId (key x)) input
        → (length out ≡ length input)
        → (min_val n : ℕ) × All (InRange key min_val n) input
          × (pass key alloc input out ≡ some (concat (buckets key min_val n input)))
          × (length (concat (buckets key min_val n input)) ≡ length input)
    unfolding pass
    pass-some input out small e =
        let min_val : ℕ = (scan key input last_int 0).0 in
        let max_val : ℕ = (scan key input last_int 0).1 in
        let n : ℕ = max_val - min_val + 1 in
        let (low, high) = scan-SmallId input last_int 0 (omega arith) (omega arith) small in
        let (below, above, bounds) = scan-bounds input last_int 0 in
        let inside : All (InRange key min_val n) input =
          All-map (InRange key min_val n) input (λ x h. (h.0, omega (arith, h.0, h.1))) bounds in
        let few : leb n int_max ≡ true = ground arith in
        let sums_lem = place-sums key min_val n input out inside e in
        (
          min_val,
          n,
          inside,
          rw (few, mem n, pass) (ap some sums_lem),
          ap length (sym sums_lem) ∙ length-place key min_val n input (length input) _ out ∙ e,
        )

    -- One level: the result has the entries, in the order of their keys and then of the input.
    pass-By :
        (R : A → A → Type 0) (P : A → Type 0) (input out : List A)
        → All (λ x. SmallId (key x)) input
        → length out ≡ length input
        → All P input
        → Ascends R input
        → (r : List A) × (pass key alloc input out ≡ some r)
          × Perm r input
          × (length r ≡ length input)
          × All P r
          × Ascends (By key R) r
    pass-By R P input out small e p asc =
        let (min_val, n, inside, eq, len) = pass-some input out small e in
        (
          concat (buckets key min_val n input),
          eq,
          perm-buckets key min_val n input inside,
          len,
          All-concat P (buckets key min_val n input) (All-buckets key min_val n P input p),
          buckets-Ascends key min_val n R input inside asc,
        )

module _ {A : Type 0} (key : ℕ → A → ℕ) (alloc : ℕ → Bool) (mem : (k : ℕ) → alloc k ≡ true) where
  -- All the keys of an entry are small.
  abbrev Small : A → Type 0
  Small x = (l : ℕ) → l < 9 → SmallId (key l x)

  sort_levels-LexLe :
      (d lvl : ℕ) (input out : List A)
      → lvl ≤ 9
      → All Small input
      → length out ≡ length input
      → Ascends (LexLe key d lvl) input
      → (r : List A) × (sort_levels key alloc lvl input out ≡ some r)
        × Perm r input
        × Ascends (LexLe key (lvl + d) 0) r
  unfolding sort_levels
  sort_levels-LexLe d zero input out le small e asc = (
    input,
    refl,
    Perm.refl input,
    subst (λ k. Ascends (LexLe key k 0) input) {x = d} {y = 0 + d} (omega arith) asc,
  )
  sort_levels-LexLe d (suc lvl) input out le small e asc =
      let (r, eq, perm, len, small', asc') =
        pass-By (key lvl) alloc mem (LexLe key d (suc lvl)) Small input out
          (All-map (λ x. SmallId (key lvl x)) input (λ x h. h lvl (omega arith)) small) e small
          asc in
      let (r', eq', perm', asc'') =
        sort_levels-LexLe (suc d) lvl r input (omega arith) small' (sym len) asc' in
      (
        r',
        rw (eq, sort_levels) eq',
        Perm.trans perm' perm,
        subst (λ k. Ascends (LexLe key k 0) r') {x = lvl + suc d} {y = suc lvl + d} (omega arith)
            asc'',
      )

-- The key of a level.
abbrev pub level : Bool → ℕ → HwThread → ℕ
level closed lvl t = get_or (sort_key closed t) lvl 0

length-sort_key : (closed : Bool) (t : HwThread) → length (sort_key closed t) ≡ 9
unfolding sort_key
length-sort_key false t = refl
length-sort_key true t = refl

-- The sort of some threads returns the same threads, by the first of the nine keys that differs, if
-- memory is given and no identifier is negative or `INT_MAX`.
pub hwthreads_sort-Sorts :
    (alloc : ℕ → Bool) (buffer : List HwThread) (closed : Bool) (inlist : List HwThread)
    → ((k : ℕ) → alloc k ≡ true)
    → length buffer ≡ length inlist
    → 0 < length inlist
    → All (λ t. All SmallId (sort_key closed t)) inlist
    → (r : List HwThread) × (hwthreads_sort alloc (some buffer) closed inlist ≡ ok r)
      × Perm r inlist
      × Ascends (LexLe (level closed) 9 0) r
unfolding hwthreads_sort
hwthreads_sort-Sorts alloc buffer closed inlist mem e pos small =
    let (r, eq, perm, asc) =
      sort_levels-LexLe (level closed) alloc mem 0 9 inlist buffer (omega arith)
        (All-map (Small (level closed) alloc mem) inlist
          (λ t h l lt.
            All-get_or SmallId (sort_key closed t) l 0 (omega (arith, length-sort_key closed t)) h)
          small)
        e (any-Ascends inlist) in
    let some_threads : (length inlist == 0) ≡ false = ground arith in
    (r, rw (some_threads, eq, hwthreads_sort) refl, perm, asc)
