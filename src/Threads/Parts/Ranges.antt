-- ===== src/Threads/Parts/Ranges.antt =====
-- What the checks of src/threads.c on the part of a worker ensure.
use native.Mathlib.Nat.{mod-eq_of_lt, mod-eq-sub-mod, mod-lt}
use likwid_bench.Base.{
  ℕ, ◌+◌, ◌-◌, ◌*◌, ◌%◌, ◌≤◌, ◌<◌, ◌≡◌, ◌↔◌, refl, sym, ◌∙◌, ap, true, false, List, [], ◌∷◌, All,
  ltb, ltb→lt, ltb→ge, ◌==◌, ◌⊎◌, ==→ne, Result, ok, err, Errno, arith, Bool-cases, inl, inr,
}
use likwid_bench.Allocator.{getsizeof, getstreambytes}
use likwid_bench.Threads.Parts.{word, ptr_in_range, Part, tstream_ptr, check_dims, check_parts}

-- The test holds exactly if the block does not begin before the range nor end after it.
abbrev pub Inside : (base elems off size : ℕ) → Type 0
Inside base elems off size = (base ≤ off) × (off + size ≤ base + elems)

-- A sum of two words that is not below one of them has not wrapped.
no_wrap :
    (off size : ℕ)
    → off < word
    → size < word
    → off ≤ (off + size) % word
    → (off + size) % word ≡ off + size
no_wrap off size o s h = elim (Bool-cases (ltb (off + size) word)) [
  | inl fits ↦ mod-eq_of_lt (ltb→lt (off + size) word fits)
  | inr wraps ↦
      let over : word ≤ off + size = ltb→ge (off + size) word wraps in
      let low : (off + size) % word ≡ off + size - word =
        mod-eq-sub-mod over ∙ mod-eq_of_lt (omega arith) in
      absurd (omega arith)
]

ptr_in_range-true :
    (base elems off size : ℕ)
    → off < word
    → size < word
    → base + elems < word
    → ptr_in_range base elems off size ≡ true
    → Inside base elems off size
unfolding ptr_in_range
ptr_in_range-true base elems off size o s b h = elim (Bool-cases (ltb off base)) [
  | inl before ↦ (let k = rw before at h in cc)
  | inr starts ↦ elim (Bool-cases (ltb ((off + size) % word) off)) [
    | inl wraps ↦ (let k = rw (starts, wraps, ptr_in_range) at h in cc)
    | inr flat ↦ elim (Bool-cases (ltb ((base + elems) % word) ((off + size) % word))) [
      | inl past ↦ (let k = rw (starts, flat, past, ptr_in_range) at h in cc)
      | inr within ↦
          let exact = no_wrap off size o s (ltb→ge ((off + size) % word) off flat) in
          (
            ltb→ge off base starts,
            omega (
              arith,
              exact,
              ltb→ge ((base + elems) % word) ((off + size) % word) within,
              mod-eq_of_lt b,
            ),
          )
    ]
  ]
]

ptr_in_range-Inside :
    (base elems off size : ℕ)
    → base + elems < word
    → Inside base elems off size
    → ptr_in_range base elems off size ≡ true
unfolding ptr_in_range
ptr_in_range-Inside base elems off size b (starts, ends) =
    let e1 : (base + elems) % word ≡ base + elems = mod-eq_of_lt b in
    let e2 : (off + size) % word ≡ off + size = mod-eq_of_lt (omega arith) in
    let t1 : ltb off base ≡ false = ground arith in
    let t2 : ltb ((off + size) % word) off ≡ false = ground (arith, e2) in
    let t3 : ltb ((base + elems) % word) ((off + size) % word) ≡ false = ground (arith, e1, e2) in
    rw (t1, t2, t3) refl

-- The stream and the sizes of a part are within the address space.
abbrev pub Sized : Part → Type 0
Sized p =
    (p.stream.ptr + getstreambytes p.stream < word)
    × All (λ t. t * getsizeof p.stream.type < word) p.tsizes

-- A part has an element at least, and its bytes are bytes of the stream, in each dimension.
abbrev pub PartInside : Part → ℕ → Type 0
PartInside p t =
    (0 < t)
    × Inside p.stream.ptr (getstreambytes p.stream) (tstream_ptr p) (t * getsizeof p.stream.type)

tstream_ptr-lt : (p : Part) → tstream_ptr p < word
unfolding tstream_ptr
tstream_ptr-lt p = mod-lt _ (omega arith)

Result-cases : (r : Result (Unit {0})) → (r ≡ ok tt) ⊎ ((e : Errno) × (r ≡ err e))
Result-cases (ok tt) = inl refl
Result-cases (err e) = inr (e, refl)

check_dims-ok :
    (p : Part) (ts : List ℕ)
    → p.stream.ptr + getstreambytes p.stream < word
    → All (λ t. t * getsizeof p.stream.type < word) ts
    → (check_dims p ts ≡ ok tt) ↔ All (PartInside p) ts
unfolding check_dims
check_dims-ok p [] b sized = ((λ e. tt), (λ i. refl))
check_dims-ok p (t ∷ ts) b sized =
    let bytes = getstreambytes p.stream in
    let off = tstream_ptr p in
    let size = t * getsizeof p.stream.type in
    let flat : size % word ≡ size = mod-eq_of_lt sized.0 in
    let rest = check_dims-ok p ts b sized.1 in
    (
      (λ e. elim (Bool-cases (t == 0)) [
        | inl zero_size ↦ (let k = rw zero_size at e in cc)
        | inr some_size ↦ elim (Bool-cases (ptr_in_range p.stream.ptr bytes off (size % word))) [
          | inl good ↦ (
            (
              omega (arith, ==→ne t 0 some_size),
              ptr_in_range-true p.stream.ptr bytes off size (tstream_ptr-lt p) sized.0 b
                  (ap (λ z. ptr_in_range p.stream.ptr bytes off z) (sym flat) ∙ good),
            ),
            rest.0 (rw (some_size, good, check_dims) at e),
          )
          | inr bad ↦ (let k = rw (some_size, bad, check_dims) at e in cc)
        ]
      ]),
      (λ i.
          let some_size : (t == 0) ≡ false = ground (arith, i.0.0) in
          let good : ptr_in_range p.stream.ptr bytes off (size % word) ≡ true =
            ap (λ z. ptr_in_range p.stream.ptr bytes off z) flat
            ∙ ptr_in_range-Inside p.stream.ptr bytes off size b i.0.1 in
          rw (some_size, good, check_dims) (rest.1 i.1)),
    )

-- The checks pass exactly if each part of a stream has an element at least and, in each dimension,
-- the bytes of as many elements from its pointer on are bytes of the stream, for streams and sizes
-- that are within the address space.
pub check_parts-PartInside :
    (ps : List Part)
    → All Sized ps
    → (check_parts ps ≡ ok tt) ↔ All (λ p. All (PartInside p) p.tsizes) ps
unfolding check_parts
check_parts-PartInside [] sized = ((λ e. tt), (λ i. refl))
check_parts-PartInside (p ∷ ps) sized =
    let dims = check_dims-ok p p.tsizes sized.0.0 sized.0.1 in
    let rest = check_parts-PartInside ps sized.1 in
    (
      (λ e. elim (Result-cases (check_dims p p.tsizes)) [
        | inl done ↦ (dims.0 done, rest.0 (rw (done, check_parts) at e))
        | inr (code, bad) ↦ (let k = rw (bad, check_parts) at e in cc)
      ]),
      (λ i. rw (dims.1 i.0, check_parts) (rest.1 i.1)),
    )
