-- ===== src/Bstrings/Number/Sound.antt =====
-- Whatever `bisnumber` of src/bstrlib_helper.c accepts is a number of the grammar.
use mathlib.Core.Path.{subst}
use likwid_bench.Base.{
  ℕ, ◌<◌, ◌≡◌, refl, sym, ◌∙◌, ap, ap₂, Bool, true, false, ◌&&◌, ◌↔◌, inl, inr, [], ◌∷◌, ◌++◌,
  append-nil, length, ◌==◌, ==→eq, arith, Bool-cases,
}
use likwid_bench.Base.Strings.{Str}
use likwid_bench.Bstrings.Number.{
  at_end, skip_one, skip_digits, is_sign, is_e, exponent, fraction, bisnumber,
}
use likwid_bench.Bstrings.Number.Grammar.{
  Digits, Exponent, none, plain, signed, Unsigned, whole, point, Number, positive, negative,
  some_or, skip_digits-Skipped, fraction-point, unsigned, Number-bisnumber,
}

and-left : (a b : Bool) → (a && b) ≡ true → a ≡ true
and-left true b h = refl
and-left false b h = cc

and-right : (a b : Bool) → (a && b) ≡ true → b ≡ true
and-right true b h = h
and-right false b h = cc

at_end-nil : (s : Str) → at_end s ≡ true → s ≡ []
at_end-nil [] h = refl
at_end-nil (c ∷ s) h = cc

-- A text of digits only, one at least.
abbrev SomeDigits : Str → Type 0
SomeDigits s = (d : ℕ) × (ds : Str) × (s ≡ d ∷ ds) × Digits (d ∷ ds)

Skipped-SomeDigits :
    (s ds left : Str)
    → s ≡ ds ++ left
    → Digits ds
    → (some_or false ds && at_end left) ≡ true
    → SomeDigits s
Skipped-SomeDigits s [] left e all h = cc
Skipped-SomeDigits s (d ∷ ds) left e all h =
    (d, ds, e ∙ ap (λ l. d ∷ ds ++ l) (at_end-nil left h) ∙ append-nil (d ∷ ds), all)

skip_digits-SomeDigits :
    (s : Str) → ((skip_digits false s).0 && at_end (skip_digits false s).1) ≡ true → SomeDigits s
skip_digits-SomeDigits s h =
    let k = skip_digits-Skipped false s in
    Skipped-SomeDigits s k.digits k.left k.whole k.all (rw k.flag at h)

exponent-signed :
    (e s : ℕ) (b : Str)
    → is_e e ≡ true
    → is_sign s ≡ true
    → exponent (e ∷ s ∷ b) ≡ (skip_digits false b).0 && at_end (skip_digits false b).1
unfolding exponent skip_one
exponent-signed e s b here sign = rw (here, sign, exponent) refl

exponent-plain :
    (e s : ℕ) (b : Str)
    → is_e e ≡ true
    → is_sign s ≡ false
    → exponent (e ∷ s ∷ b) ≡ (skip_digits false (s ∷ b)).0 && at_end (skip_digits false (s ∷ b)).1
unfolding exponent skip_one
exponent-plain e s b here other = rw (here, other, exponent) refl

SomeDigits-signed :
    (e s : ℕ) (b : Str) → is_e e ≡ true → is_sign s ≡ true → SomeDigits b → Exponent (e ∷ s ∷ b)
SomeDigits-signed e s b here sign (d, ds, same, all) =
    subst (λ l. Exponent (e ∷ s ∷ l)) (sym same) (signed e s d ds here sign all)

SomeDigits-plain : (e : ℕ) (b : Str) → is_e e ≡ true → SomeDigits b → Exponent (e ∷ b)
SomeDigits-plain e b here (d, ds, same, all) =
    subst (λ l. Exponent (e ∷ l)) (sym same) (plain e d ds here all)

exponent-Exponent : (x : Str) → exponent x ≡ true → Exponent x
unfolding exponent skip_one skip_digits
exponent-Exponent [] h = none
exponent-Exponent (e ∷ []) h = elim (Bool-cases (is_e e)) [
  | inl here ↦ (let k = rw here at h in cc)
  | inr other ↦ (let k = rw other at h in cc)
]
exponent-Exponent (e ∷ s ∷ b) h = elim (Bool-cases (is_e e)) [
  | inl here ↦ elim (Bool-cases (is_sign s)) [
    | inl sign ↦
        SomeDigits-signed e s b here sign
          (skip_digits-SomeDigits b (sym (exponent-signed e s b here sign) ∙ h))
    | inr other ↦
        SomeDigits-plain e (s ∷ b) here
          (skip_digits-SomeDigits (s ∷ b) (sym (exponent-plain e s b here other) ∙ h))
  ]
  | inr other ↦ (let k = rw other at h in cc)
]

some_or-length : (ds fs : Str) → some_or (some_or false ds) fs ≡ true → 0 < length (ds ++ fs)
some_or-length [] [] h = cc
some_or-length [] (f ∷ fs) h = omega arith
some_or-length (d ∷ ds) fs h = omega arith

whole-Digits :
    (s ds x : Str) → s ≡ ds ++ x → Digits ds → some_or false ds ≡ true → Exponent x → Unsigned s
whole-Digits s [] x e all h ex = cc
whole-Digits s (d ∷ ds) x e all h ex = subst Unsigned (sym e) (whole d ds x all ex)

-- What is left after the digits, and its test.
fraction-Unsigned :
    (s ds left : Str)
    → s ≡ ds ++ left
    → Digits ds
    → fraction (some_or false ds) left ≡ true
    → Unsigned s
unfolding fraction
fraction-Unsigned s ds [] e all h = whole-Digits s ds [] e all h none
fraction-Unsigned s ds (c ∷ b) e all h = elim (Bool-cases (c == b'.')) [
  | inl dot ↦
      let seen = some_or false ds in
      let k = skip_digits-Skipped seen b in
      let h1 : fraction seen (b'.' ∷ b) ≡ true = rw (==→eq c b'.' dot) at h in
      let h2 : (some_or seen k.digits && exponent k.left) ≡ true =
        rw (fraction-point seen b, k.flag) at h1 in
      subst Unsigned (sym (e ∙ ap₂ (λ x l. ds ++ x ∷ l) (==→eq c b'.' dot) k.whole)) (
        point ds k.digits k.left all k.all
          (some_or-length ds k.digits (and-left (some_or seen k.digits) (exponent k.left) h2))
          (exponent-Exponent k.left (and-right (some_or seen k.digits) (exponent k.left) h2)))
  | inr other ↦
      let seen = some_or false ds in
      let h1 : (seen && exponent (c ∷ b)) ≡ true = rw (other, fraction) at h in
      whole-Digits s ds (c ∷ b) e all (and-left seen (exponent (c ∷ b)) h1)
        (exponent-Exponent (c ∷ b) (and-right seen (exponent (c ∷ b)) h1))
]

unsigned-Unsigned : (s : Str) → unsigned s ≡ true → Unsigned s
unsigned-Unsigned s h =
    let k = skip_digits-Skipped false s in
    fraction-Unsigned s k.digits k.left k.whole k.all (rw k.flag at h)

bisnumber-Number : (s : Str) → bisnumber s ≡ true → Number s
unfolding bisnumber skip_one
bisnumber-Number [] h = positive [] (unsigned-Unsigned [] h)
bisnumber-Number (c ∷ b) h = elim (Bool-cases (c == b'-')) [
  | inl minus ↦
      subst (λ x. Number (x ∷ b)) (sym (==→eq c b'-' minus))
        (negative b (unsigned-Unsigned b (rw (minus, bisnumber) at h)))
  | inr other ↦ positive (c ∷ b) (unsigned-Unsigned (c ∷ b) (rw (other, bisnumber) at h))
]

-- The test accepts a text exactly if it is a number: a minus sign if there is one, digits with one
-- decimal point at most and one digit at least, and after them, if there is one, an exponent, `e` or
-- `E` with a sign if there is one and one digit at least.
pub bisnumber-iff_Number : (s : Str) → (bisnumber s ≡ true) ↔ Number s
bisnumber-iff_Number s = (bisnumber-Number s, Number-bisnumber)
