-- ===== src/Stack.antt =====
-- src/stack.c: a stack of `void*` over one allocated array, used by the calculator.
-- `Spec` is the bounded LIFO list that clients see, `Refine` relates the array to it.
-- A pointer argument is an Option, `none` for NULL; a function that writes through `s` returns the
-- new `*s`. `top` is an `int` from -1 on: the field `depth` is `top + 1`.
pub mod Spec
pub mod Refine
mod Tests
use likwid_bench.Base.Int.{ℤ, pos, negsuc}
use likwid_bench.Base.{
  ℕ, suc, ◌+◌, ◌-◌, Bool, true, false, Option, none, some, List, [], ◌∷◌, Result, ok, err, einval,
  enomem, enobufs, ltb, leb, if◌then◌else◌, set, get_or,
}

-- `Stack`. The slots of the array are pointers, so NULL is a possible value of each.
pub record Stack {ℓ} (A : Type ℓ) : Type ℓ where
  pub content : Option (List (Option A))
  pub size : ℕ
  pub depth : ℕ

abbrev pub Status : Type 0
Status = Result (Unit {0})

-- What `malloc` returns for the number of slots asked: NULL, or slots of arbitrary content.
abbrev pub Malloc {ℓ} : Type ℓ → Type ℓ
Malloc A = ℕ → Option (List (Option A))

module _ {ℓ} {A : Type ℓ} where
  -- FRESH_STACK
  abbrev pub fresh_stack : Stack A
  fresh_stack = record { content = none; size = 0; depth = 0 }

  init_with : Stack A → ℕ → Option (List (Option A)) → Status × Option (Stack A)
  init_with s n none = (err enomem, some (record s { content = none }))
  init_with s n (some slots) = (ok tt, some (record { content = some slots; size = n; depth = 0 }))

  unfoldable pub init : Malloc A → Option (Stack A) → ℤ → Status × Option (Stack A)
  unfolding init_with
  init malloc none size = (err einval, none)
  init malloc (some s) (negsuc n) = (err einval, some s)
  init malloc (some s) (pos n) = if leb n 0 then (err einval, some s) else init_with s n (malloc n)

  -- `s->content[i] = val`; through NULL nothing is written (the guard on `size` rules it out).
  abbrev pub write : Option (List (Option A)) → ℕ → A → Option (List (Option A))
  write none i v = none
  write (some slots) i v = some (set slots i (some v))

  unfoldable pub push : Option (Stack A) → Option A → Status × Option (Stack A)
  push none val = (err einval, none)
  push (some s) none = (err einval, some s)
  push (some s) (some val) =
      if leb s.size s.depth
      then (err enobufs, some s)
      else (ok tt, some (record s { content = write s.content s.depth val; depth = s.depth + 1 }))

  -- The guard of `stackTop` and `stackPop`, and the value read under it.
  pub top_of : Option (List (Option A)) → ℕ → Option A
  top_of none depth = none
  top_of (some slots) depth = if ltb 0 depth then get_or slots (depth - 1) none else none

  abbrev has_content : Option (List (Option A)) → Bool
  has_content none = false
  has_content (some slots) = true

  unfoldable pub top : Option (Stack A) → Option A
  unfolding top_of
  top none = none
  top (some s) = top_of s.content s.depth

  unfoldable pub pop : Option (Stack A) → Option A × Option (Stack A)
  unfolding top_of
  pop none = (none, none)
  pop (some s) =
      if ltb 0 s.depth
      then if has_content s.content
        then (top_of s.content s.depth, some (record s { depth = s.depth - 1 }))
        else (none, some s)
      else (none, some s)

  unfoldable pub size : Option (Stack A) → ℕ
  size none = 0
  size (some s) = s.depth

  unfoldable pub free : Option (Stack A) → Option (Stack A)
  free none = none
  free (some s) = some (record { content = none; size = 0; depth = 0 })
