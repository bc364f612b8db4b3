-- ===== src/Base/Strings.antt =====
-- C strings as lists of non-zero bytes without the terminator, and the comparisons of string.h.
use Prim.Native.Nat.{ℕ, zero, suc}
use Prim.Native.Char.{code}
use Prim.Native.String.{String}
use mathlib.Core.Path.{◌≡◌, refl, ap₂}
use mathlib.Core.Bool.{Bool, true, false, ◌&&◌}
use mathlib.Core.Logic.{inl, inr}
use mathlib.Core.List.{List, [], ◌∷◌}
use likwid_bench.Base.Tests.{◌==◌, ==→eq, ==_self, Bool-cases}

abbrev pub Str : Type 0
Str = List ℕ

-- The bytes of an ASCII literal.
abbrev pub str : String → Str
str String.[] = []
str (String.◌∷◌ c s) = code c ∷ str s

-- `strcmp(s, t) == 0`
unfoldable pub strcmp_eq : Str → Str → Bool
strcmp_eq [] [] = true
strcmp_eq [] (d ∷ t) = false
strcmp_eq (c ∷ s) [] = false
strcmp_eq (c ∷ s) (d ∷ t) = c == d && strcmp_eq s t

-- `strncmp(s, t, n) == 0`
unfoldable pub strncmp_eq : Str → Str → ℕ → Bool
strncmp_eq s t zero = true
strncmp_eq [] [] (suc n) = true
strncmp_eq [] (d ∷ t) (suc n) = false
strncmp_eq (c ∷ s) [] (suc n) = false
strncmp_eq (c ∷ s) (d ∷ t) (suc n) = c == d && strncmp_eq s t n

pub strcmp_eq→eq : (s t : Str) → strcmp_eq s t ≡ true → s ≡ t
unfolding strcmp_eq
strcmp_eq→eq [] [] h = refl
strcmp_eq→eq [] (d ∷ t) h = cc
strcmp_eq→eq (c ∷ s) [] h = cc
strcmp_eq→eq (c ∷ s) (d ∷ t) h = elim (Bool-cases (c == d)) [
  | inl same ↦ ap₂ ◌∷◌ (==→eq c d same) (strcmp_eq→eq s t (rw same at h))
  | inr other ↦ (let k = rw other at h in cc)
]

pub strcmp_eq_self : (s : Str) → strcmp_eq s s ≡ true
unfolding strcmp_eq
strcmp_eq_self [] = refl
strcmp_eq_self (c ∷ s) = rw (==_self c) (strcmp_eq_self s)
