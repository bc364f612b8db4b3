-- ===== src/Topology/Buckets.antt =====
-- What the counting sort of src/topology.c is for: the entries by value, each in its bucket.
use mathlib.Core.List.{Perm, perm_middle}
use mathlib.Core.List.Perm
use likwid_bench.Base.{
  ℕ, zero, suc, ◌+◌, ◌-◌, ◌<◌, ◌≤◌, ◌≡◌, refl, ap, ◌⊎◌, inl, inr, List, [], ◌∷◌, ◌++◌, length,
  length-replicate, replicate, All, All-append, arith,
}

module _ {A : Type 0} where
  abbrev pub cons_at : List (List A) → ℕ → A → List (List A)
  cons_at [] v x = []
  cons_at (b ∷ bs) zero x = (x ∷ b) ∷ bs
  cons_at (b ∷ bs) (suc v) x = b ∷ cons_at bs v x

  abbrev pub concat : List (List A) → List A
  concat [] = []
  concat (b ∷ bs) = b ++ concat bs

  -- Every entry is in the relation to all later ones.
  abbrev pub Ascends : (A → A → Type 0) → List A → Type 0
  Ascends R [] = Unit
  Ascends R (x ∷ xs) = All (R x) xs × Ascends R xs

  length-cons_at : (bs : List (List A)) (v : ℕ) (x : A) → length (cons_at bs v x) ≡ length bs
  length-cons_at [] v x = refl
  length-cons_at (b ∷ bs) zero x = refl
  length-cons_at (b ∷ bs) (suc v) x = ap suc (length-cons_at bs v x)

  perm-cons_at :
      (bs : List (List A)) (v : ℕ) (x : A)
      → v < length bs
      → Perm (concat (cons_at bs v x)) (x ∷ concat bs)
  perm-cons_at [] v x lt = absurd (omega arith)
  perm-cons_at (b ∷ bs) zero x lt = Perm.refl (x ∷ b ++ concat bs)
  perm-cons_at (b ∷ bs) (suc v) x lt =
      Perm.trans (Perm.append_left b (perm-cons_at bs v x (omega arith)))
        (perm_middle b (concat bs))

  concat-empty : (n : ℕ) → concat (replicate n []) ≡ []
  concat-empty zero = refl
  concat-empty (suc n) = concat-empty n

  All-empty : (P : List A → Type 0) (n : ℕ) → P [] → All P (replicate n [])
  All-empty P zero h = tt
  All-empty P (suc n) h = (h, All-empty P n h)

  All-cons_at :
      (P : A → Type 0) (bs : List (List A)) (v : ℕ) (x : A)
      → P x
      → All (All P) bs
      → All (All P) (cons_at bs v x)
  All-cons_at P [] v x px h = tt
  All-cons_at P (b ∷ bs) zero x px h = ((px, h.0), h.1)
  All-cons_at P (b ∷ bs) (suc v) x px h = (h.0, All-cons_at P bs v x px h.1)

  Ascends-cons_at :
      (R : A → A → Type 0) (bs : List (List A)) (v : ℕ) (x : A)
      → All (All (R x)) bs
      → All (Ascends R) bs
      → All (Ascends R) (cons_at bs v x)
  Ascends-cons_at R [] v x below h = tt
  Ascends-cons_at R (b ∷ bs) zero x below h = ((below.0, h.0), h.1)
  Ascends-cons_at R (b ∷ bs) (suc v) x below h = (h.0, Ascends-cons_at R bs v x below.1 h.1)

  pub All-concat : (P : A → Type 0) (bs : List (List A)) → All (All P) bs → All P (concat bs)
  All-concat P [] h = tt
  All-concat P (b ∷ bs) h = All-append P b (concat bs) h.0 (All-concat P bs h.1)

  pub any-Ascends : (xs : List A) → Ascends (λ x y. Unit) xs
  any-Ascends [] = tt
  any-Ascends (x ∷ xs) = (any_all xs, any-Ascends xs)
    where
      any_all : (ys : List A) → All (λ y. Unit {0}) ys
      any_all [] = tt
      any_all (y ∷ ys) = (tt, any_all ys)

module _ {A : Type 0} (key : A → ℕ) where
  -- The entries of each bucket have its value, from `b` on.
  abbrev pub Valued : ℕ → List (List A) → Type 0
  Valued b [] = Unit
  Valued b (xs ∷ bs) = All (λ x. key x ≡ b) xs × Valued (suc b) bs

  -- By the value first, and then by a relation.
  abbrev pub By : (A → A → Type 0) → A → A → Type 0
  By R x y = (key x < key y) ⊎ ((key x ≡ key y) × R x y)

  Valued-empty : (n b : ℕ) → Valued b (replicate n [])
  Valued-empty zero b = tt
  Valued-empty (suc n) b = (tt, Valued-empty n (suc b))

  Valued-cons_at :
      (b : ℕ) (bs : List (List A)) (v : ℕ) (x : A)
      → key x ≡ b + v
      → Valued b bs
      → Valued b (cons_at bs v x)
  Valued-cons_at b [] v x e h = tt
  Valued-cons_at b (xs ∷ bs) zero x e h = ((omega arith, h.0), h.1)
  Valued-cons_at b (xs ∷ bs) (suc v) x e h = (h.0, Valued-cons_at (suc b) bs v x (omega arith) h.1)

  above : (b c : ℕ) (xs : List A) → b ≤ c → All (λ x. key x ≡ c) xs → All (λ x. b ≤ key x) xs
  above b c [] le h = tt
  above b c (x ∷ xs) le h = (omega (arith, h.0), above b c xs le h.1)

  Valued-above :
      (b c : ℕ) (bs : List (List A)) → b ≤ c → Valued c bs → All (λ x. b ≤ key x) (concat bs)
  Valued-above b c [] le h = tt
  Valued-above b c (xs ∷ bs) le h =
      All-append (λ x. b ≤ key x) xs (concat bs) (above b c xs le h.0)
        (Valued-above b (suc c) bs (omega arith) h.1)

  all-By :
      (R : A → A → Type 0) (b : ℕ) (x : A) (xs : List A)
      → key x ≡ b
      → All (λ y. key y ≡ b) xs
      → All (R x) xs
      → All (By R x) xs
  all-By R b x [] e same h = tt
  all-By R b x (y ∷ xs) e same h =
      (inr (omega (arith, e, same.0), h.0), all-By R b x xs e same.1 h.1)

  all_lower :
      (R : A → A → Type 0) (b : ℕ) (x : A) (xs : List A)
      → key x ≡ b
      → All (λ y. suc b ≤ key y) xs
      → All (By R x) xs
  all_lower R b x [] e h = tt
  all_lower R b x (y ∷ xs) e h = (inl (omega (arith, e, h.0)), all_lower R b x xs e h.1)

  Ascends-append :
      (R : A → A → Type 0) (b : ℕ) (xs ys : List A)
      → All (λ x. key x ≡ b) xs
      → Ascends R xs
      → All (λ y. suc b ≤ key y) ys
      → Ascends (By R) ys
      → Ascends (By R) (xs ++ ys)
  Ascends-append R b [] ys same h low rest = rest
  Ascends-append R b (x ∷ xs) ys same h low rest = (
    All-append (By R x) xs ys (all-By R b x xs same.0 same.1 h.0) (all_lower R b x ys same.0 low),
    Ascends-append R b xs ys same.1 h.1 low rest,
  )

  concat-Ascends :
      (R : A → A → Type 0) (b : ℕ) (bs : List (List A))
      → Valued b bs
      → All (Ascends R) bs
      → Ascends (By R) (concat bs)
  concat-Ascends R b [] val h = tt
  concat-Ascends R b (xs ∷ bs) val h =
      Ascends-append R b xs (concat bs) val.0 h.0
        (Valued-above (suc b) (suc b) bs (omega arith) val.1)
        (concat-Ascends R (suc b) bs val.1 h.1)

  -- The buckets for `n` values from `min_val` on.
  module _ (min_val n : ℕ) where
    unfoldable pub buckets : List A → List (List A)
    buckets [] = replicate n []
    buckets (x ∷ xs) = cons_at (buckets xs) (key x - min_val) x

    -- The value has a bucket.
    abbrev pub InRange : A → Type 0
    InRange x = (min_val ≤ key x) × (key x - min_val < n)

    length-buckets : (xs : List A) → length (buckets xs) ≡ n
    unfolding buckets
    length-buckets [] = length-replicate n []
    length-buckets (x ∷ xs) =
        omega (arith, length-cons_at (buckets xs) (key x - min_val) x, length-buckets xs)

    pub perm-buckets : (xs : List A) → All InRange xs → Perm (concat (buckets xs)) xs
    unfolding buckets
    perm-buckets [] h = rw (concat-empty n) (Perm.refl [])
    perm-buckets (x ∷ xs) h =
        Perm.trans
          (perm-cons_at (buckets xs) (key x - min_val) x (omega (arith, h.0.1, length-buckets xs)))
          (Perm.cons x (perm-buckets xs h.1))

    pub All-buckets : (P : A → Type 0) (xs : List A) → All P xs → All (All P) (buckets xs)
    unfolding buckets
    All-buckets P [] h = All-empty (All P) n tt
    All-buckets P (x ∷ xs) h =
        All-cons_at P (buckets xs) (key x - min_val) x h.0 (All-buckets P xs h.1)

    Ascends-buckets :
        (R : A → A → Type 0) (xs : List A) → Ascends R xs → All (Ascends R) (buckets xs)
    unfolding buckets
    Ascends-buckets R [] h = All-empty (Ascends R) n tt
    Ascends-buckets R (x ∷ xs) h =
        Ascends-cons_at R (buckets xs) (key x - min_val) x (All-buckets (R x) xs h.0)
          (Ascends-buckets R xs h.1)

    Valued-buckets : (xs : List A) → All InRange xs → Valued min_val (buckets xs)
    unfolding buckets
    Valued-buckets [] h = Valued-empty n min_val
    Valued-buckets (x ∷ xs) h =
        Valued-cons_at min_val (buckets xs) (key x - min_val) x (omega (arith, h.0.0))
          (Valued-buckets xs h.1)

    pub buckets-Ascends :
        (R : A → A → Type 0) (xs : List A)
        → All InRange xs
        → Ascends R xs
        → Ascends (By R) (concat (buckets xs))
    buckets-Ascends R xs h asc =
        concat-Ascends R min_val (buckets xs) (Valued-buckets xs h) (Ascends-buckets R xs asc)
