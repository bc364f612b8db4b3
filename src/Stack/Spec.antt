-- ===== src/Stack/Spec.antt =====
-- What src/stack.c promises: a last-in-first-out list of at most `cap` values, and the sequences of
-- calls that a client can make.
use likwid_bench.Base.{
  ℕ, Option, none, some, List, [], ◌∷◌, Result, ok, err, einval, enobufs, ltb, if◌then◌else◌,
  length,
}

-- The values, topmost first.
pub record Lifo {ℓ} (A : Type ℓ) : Type ℓ where
  pub items : List A
  pub cap : ℕ

pub data Op {ℓ} (A : Type ℓ) : Type ℓ where
  push_op : Option A → Op A
  pop_op : Op A
  top_op : Op A
  size_op : Op A
  free_op : Op A

-- What a call returns.
pub data Reply {ℓ} (A : Type ℓ) : Type ℓ where
  status : Result (Unit {0}) → Reply A
  value : Option A → Reply A
  count : ℕ → Reply A
  void : Reply A

module _ {ℓ} {A : Type ℓ} where
  abbrev pub head_of : List A → Option A
  head_of [] = none
  head_of (x ∷ xs) = some x

  abbrev pub tail_of : List A → List A
  tail_of [] = []
  tail_of (x ∷ xs) = xs

  abbrev pub push_item : Lifo A → A → Reply A × Lifo A
  push_item l v =
      if ltb (length l.items) l.cap
      then (status (ok tt), record l { items = v ∷ l.items })
      else (status (err enobufs), l)

  unfoldable pub step : Lifo A → Op A → Reply A × Lifo A
  step l (push_op none) = (status (err einval), l)
  step l (push_op (some v)) = push_item l v
  step l pop_op = (value (head_of l.items), record l { items = tail_of l.items })
  step l top_op = (value (head_of l.items), l)
  step l size_op = (count (length l.items), l)
  step l free_op = (void, record { items = []; cap = 0 })

  unfoldable pub run : Lifo A → List (Op A) → List (Reply A)
  run l [] = []
  run l (op ∷ ops) = let (r, l') = step l op in r ∷ run l' ops
