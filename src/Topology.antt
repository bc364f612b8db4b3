-- ===== src/Topology.antt =====
-- `_hwthreads_sort` of src/topology.c: the hardware threads in the order of their places, by a counting
-- sort for each level of the topology. An `int` is kept as its distance from `INT_MIN`, which has
-- the same order and the same differences.
pub mod Buckets
pub mod Segments
pub mod Counting
pub mod Sorted
mod Tests
use likwid_bench.Base.{
  ℕ, zero, suc, ◌+◌, ◌-◌, ◌^◌, Bool, true, false, ◌&&◌, Option, none, some, List, [], ◌∷◌, length,
  get_elem?, get_or, set, replicate, leb, ltb, ◌==◌, if◌then◌else◌, Result, ok, err, enomem, fail,
}

-- `INT_MAX` and, as the distance from `INT_MIN`, the same number.
abbrev pub int_max : ℕ
int_max = 2 ^ 31 - 1

abbrev pub last_int : ℕ
last_int = 2 ^ 32 - 1

-- `LikwidBenchHwthread`
pub record HwThread : Type 0 where
  pub os_id : ℕ
  pub smt_id : ℕ
  pub core_id : ℕ
  pub die_id : ℕ
  pub socket_id : ℕ
  pub numa_id : ℕ
  pub l1_id : ℕ
  pub l2_id : ℕ
  pub llc_id : ℕ
  pub usable : ℕ

-- `sort_key`, for `closed` 0 (false) and 1 (true).
unfoldable pub sort_key : (closed : Bool) → HwThread → List ℕ
sort_key false t =
    t.socket_id ∷ t.die_id ∷ t.numa_id ∷ t.llc_id ∷ t.l2_id ∷ t.l1_id ∷ t.core_id ∷ t.smt_id
    ∷ t.os_id ∷ []
sort_key true t =
    t.smt_id ∷ t.socket_id ∷ t.die_id ∷ t.numa_id ∷ t.llc_id ∷ t.l2_id ∷ t.l1_id ∷ t.core_id
    ∷ t.os_id ∷ []

-- `count[i]++`
unfoldable pub bump : List ℕ → ℕ → List ℕ
bump count i = set count i (suc (get_or count i 0))

-- The loop that adds to each count the one before it.
unfoldable pub add_up : (before : ℕ) → List ℕ → List ℕ
add_up before [] = []
add_up before (c ∷ count) = (c + before) ∷ add_up (c + before) count

unfoldable pub sums : List ℕ → List ℕ
unfolding add_up
sums [] = []
sums (c ∷ count) = c ∷ add_up c count

module _ {A : Type 0} where
  module _ (key : A → ℕ) where
    -- The loop for `min_val` and `max_val`.
    unfoldable pub scan : List A → (min_val max_val : ℕ) → ℕ × ℕ
    scan [] min_val max_val = (min_val, max_val)
    scan (x ∷ xs) min_val max_val =
        scan xs (if ltb (key x) min_val then key x else min_val)
          (if ltb max_val (key x) then key x else max_val)

    -- The loop that counts each value.
    unfoldable pub tally : (min_val : ℕ) → List A → List ℕ → List ℕ
    unfolding bump
    tally min_val [] count = count
    tally min_val (x ∷ xs) count = tally min_val xs (bump count (key x - min_val))

    -- The loop from the last entry down that puts each at its place.
    unfoldable pub place : (min_val : ℕ) (input : List A) (i : ℕ) → List ℕ → List A → List A
    place min_val input zero count out = out
    place min_val input (suc i) count out = elim (get_elem? input i) [
      | none ↦ out
      | some x ↦
          let c = get_or count (key x - min_val) 0 - 1 in
          place min_val input i (set count (key x - min_val) c) (set out c x)
    ]

    -- One level. `alloc` says whether `calloc` gives so many counts; where their number is no `int`, it
    -- does not.
    unfoldable pub pass : (alloc : ℕ → Bool) → List A → List A → Option (List A)
    unfolding scan tally sums place
    pass alloc input out =
        let (min_val, max_val) = scan input last_int 0 in
        let n = max_val - min_val + 1 in
        if leb n int_max && alloc n
        then some
            (place min_val input (length input) (sums (tally min_val input (replicate n 0))) out)
        else none

  -- The loop over the levels, from the last to the first, with the two buffers changing places.
  unfoldable pub sort_levels :
      (key : ℕ → A → ℕ) (alloc : ℕ → Bool) (lvl : ℕ) → List A → List A → Option (List A)
  unfolding pass
  sort_levels key alloc zero input out = some input
  sort_levels key alloc (suc lvl) input out = elim (pass (key lvl) alloc input out) [
    | none ↦ none
    | some out' ↦ sort_levels key alloc lvl out' input
  ]

-- `buffer` is what `malloc` gives for `buffB`, if it gives both buffers.
unfoldable pub hwthreads_sort :
    (alloc : ℕ → Bool) (buffer : Option (List HwThread)) (closed : Bool)
    → List HwThread
    → Result (List HwThread)
unfolding sort_key sort_levels
hwthreads_sort alloc buffer closed inlist = if length inlist == 0 then err fail else (elim buffer [
  | none ↦ err enomem
  | some buff_b ↦
      elim (sort_levels (λ lvl t. get_or (sort_key closed t) lvl 0) alloc 9 inlist buff_b) [
        | none ↦ err enomem
        | some out ↦ ok out
      ]
])
