-- ===== src/Bstrings/Number/Grammar.antt =====
-- The numbers that `bisnumber` of src/bstrlib_helper.c accepts, as a grammar.
use mathlib.Core.Path.{subst}
use likwid_bench.Base.{
  ℕ, ◌<◌, ◌≡◌, refl, ◌∙◌, ap, Bool, true, false, ◌&&◌, inl, inr, [], ◌∷◌, ◌++◌, append-nil, length,
  All, ◌==◌, arith, Bool-cases,
}
use likwid_bench.Base.Strings.{Str}
use likwid_bench.Bstrings.Number.{
  is_digit, skip_one, skip_digits, is_sign, is_e, exponent, fraction, bisnumber,
}

abbrev pub Digits : Str → Type 0
Digits s = All (λ c. is_digit c ≡ true) s

-- `e` or `E`, a sign if there is one, and digits, one at least; or nothing.
pub data Exponent : Str → Type 0 where
  none : Exponent []
  plain : (e d : ℕ) (ds : Str) → is_e e ≡ true → Digits (d ∷ ds) → Exponent (e ∷ d ∷ ds)
  signed :
      (e s d : ℕ) (ds : Str)
      → is_e e ≡ true
      → is_sign s ≡ true
      → Digits (d ∷ ds)
      → Exponent (e ∷ s ∷ d ∷ ds)

-- Digits with a decimal point at most, one digit at least, and an exponent.
pub data Unsigned : Str → Type 0 where
  whole : (d : ℕ) (ds x : Str) → Digits (d ∷ ds) → Exponent x → Unsigned ((d ∷ ds) ++ x)
  point :
      (ds fs x : Str)
      → Digits ds
      → Digits fs
      → 0 < length (ds ++ fs)
      → Exponent x
      → Unsigned (ds ++ (b'.' ∷ (fs ++ x)))

pub data Number : Str → Type 0 where
  positive : (s : Str) → Unsigned s → Number s
  negative : (s : Str) → Unsigned s → Number (b'-' ∷ s)

-- A text that does not begin with a digit.
abbrev pub NoDigit : Str → Type 0
NoDigit [] = Unit
NoDigit (c ∷ s) = is_digit c ≡ false

-- Whether a digit was seen, after some more.
abbrev pub some_or : Bool → Str → Bool
some_or seen [] = seen
some_or seen (d ∷ ds) = true

some_or-true : (ds : Str) → some_or true ds ≡ true
some_or-true [] = refl
some_or-true (d ∷ ds) = refl

skip_digits_stop : (seen : Bool) (s : Str) → NoDigit s → skip_digits seen s ≡ (seen, s)
unfolding skip_digits
skip_digits_stop seen [] r = refl
skip_digits_stop seen (c ∷ s) r = rw (r, skip_digits) refl

skip_digits-true :
    (ds rest : Str) → Digits ds → NoDigit rest → skip_digits true (ds ++ rest) ≡ (true, rest)
unfolding skip_digits
skip_digits-true [] rest h r = skip_digits_stop true rest r
skip_digits-true (d ∷ ds) rest h r = rw (h.0, skip_digits) (skip_digits-true ds rest h.1 r)

skip_digits_some :
    (seen : Bool) (d : ℕ) (ds rest : Str)
    → Digits (d ∷ ds)
    → NoDigit rest
    → skip_digits seen (d ∷ ds ++ rest) ≡ (true, rest)
unfolding skip_digits
skip_digits_some seen d ds rest h r = rw (h.0, skip_digits) (skip_digits-true ds rest h.1 r)

-- What a loop over digits reads, and what it leaves.
pub record Skipped (seen : Bool) (s : Str) : Type 0 where
  pub digits : Str
  pub left : Str
  pub whole : s ≡ digits ++ left
  pub all : Digits digits
  pub flag : skip_digits seen s ≡ (some_or seen digits, left)

pub skip_digits-Skipped : (seen : Bool) (s : Str) → Skipped seen s
unfolding skip_digits
skip_digits-Skipped seen [] = record { digits = []; left = []; whole = refl; all = tt; flag = refl }
skip_digits-Skipped seen (c ∷ s) = elim (Bool-cases (is_digit c)) [
  | inl d ↦
      let k = skip_digits-Skipped true s in
      record {
        digits = c ∷ k.digits;
        left = k.left;
        whole = ap (◌∷◌ c) k.whole;
        all = (d, k.all);
        flag = rw (d, skip_digits) (k.flag ∙ ap (λ t. (t, k.left)) (some_or-true k.digits));
      }
  | inr o ↦ record {
    digits = [];
    left = c ∷ s;
    whole = refl;
    all = tt;
    flag = rw (o, skip_digits) refl;
  }
]

digit-not_sign : (c : ℕ) → is_digit c ≡ true → is_sign c ≡ false
unfolding is_digit
digit-not_sign c h = ground arith

digit-not_minus : (c : ℕ) → is_digit c ≡ true → (c == b'-') ≡ false
unfolding is_digit
digit-not_minus c h = ground arith

digit-not_e : (c : ℕ) → is_e c ≡ true → is_digit c ≡ false
unfolding is_digit
digit-not_e c h = ground arith

e-not_point : (c : ℕ) → is_e c ≡ true → (c == b'.') ≡ false
e-not_point c h = ground arith

Exponent-NoDigit : {x : Str} → Exponent x → NoDigit x
Exponent-NoDigit none = tt
Exponent-NoDigit (plain e d ds is_e_e h) = digit-not_e e is_e_e
Exponent-NoDigit (signed e s d ds is_e_e is_s h) = digit-not_e e is_e_e

skip_digits_all : (d : ℕ) (ds : Str) → Digits (d ∷ ds) → skip_digits false (d ∷ ds) ≡ (true, [])
skip_digits_all d ds h =
    subst (λ s. skip_digits false s ≡ (true, [])) (append-nil (d ∷ ds))
      (skip_digits_some false d ds [] h tt)

exponent-true : {x : Str} → Exponent x → exponent x ≡ true
unfolding exponent skip_one
exponent-true none = refl
exponent-true (plain e d ds is_e_e h) =
    rw (is_e_e, digit-not_sign d h.0, skip_digits_all d ds h, exponent) refl
exponent-true (signed e s d ds is_e_e is_s h) =
    rw (is_e_e, is_s, skip_digits_all d ds h, exponent) refl

skip_digits-append :
    (seen : Bool) (ds rest : Str)
    → Digits ds
    → NoDigit rest
    → skip_digits seen (ds ++ rest) ≡ (some_or seen ds, rest)
skip_digits-append seen [] rest h r = skip_digits_stop seen rest r
skip_digits-append seen (d ∷ ds) rest h r = skip_digits_some seen d ds rest h r

fraction-Exponent : {x : Str} → Exponent x → fraction true x ≡ true
unfolding fraction
fraction-Exponent none = refl
fraction-Exponent (plain e d ds is_e_e h) =
    rw (e-not_point e is_e_e, fraction) (exponent-true (plain e d ds is_e_e h))
fraction-Exponent (signed e s d ds is_e_e is_s h) =
    rw (e-not_point e is_e_e, fraction) (exponent-true (signed e s d ds is_e_e is_s h))

some_or-append : (ds fs : Str) → 0 < length (ds ++ fs) → some_or (some_or false ds) fs ≡ true
some_or-append [] [] h = absurd (omega arith)
some_or-append [] (f ∷ fs) h = refl
some_or-append (d ∷ ds) fs h = some_or-true fs

point-NoDigit : (s : Str) → NoDigit (b'.' ∷ s)
unfolding is_digit
point-NoDigit s = refl

pub fraction-point :
    (seen : Bool) (s : Str)
    → fraction seen (b'.' ∷ s) ≡ (skip_digits seen s).0 && exponent (skip_digits seen s).1
unfolding fraction
fraction-point seen s = refl

-- `bisnumber` after the sign.
abbrev pub unsigned : Str → Bool
unsigned s = fraction (skip_digits false s).0 (skip_digits false s).1

unsigned-true : {s : Str} → Unsigned s → unsigned s ≡ true
unsigned-true (whole d ds x h ex) =
    rw (skip_digits_some false d ds x h (Exponent-NoDigit ex)) (fraction-Exponent ex)
unsigned-true (point ds fs x h k some_digit ex) =
    rw (skip_digits-append false ds (b'.' ∷ (fs ++ x)) h (point-NoDigit (fs ++ x))) (
      fraction-point (some_or false ds) (fs ++ x)
      ∙ rw
          (
            skip_digits-append (some_or false ds) fs x k (Exponent-NoDigit ex),
            some_or-append ds fs some_digit,
          )
          (exponent-true ex))

no_minus : {s : Str} → Unsigned s → skip_one (λ c. c == b'-') s ≡ s
unfolding skip_one
no_minus (whole d ds x h ex) = rw (digit-not_minus d h.0) refl
no_minus (point [] fs x h k some_digit ex) = refl
no_minus (point (d ∷ ds) fs x h k some_digit ex) = rw (digit-not_minus d h.0) refl

pub Number-bisnumber : {s : Str} → Number s → bisnumber s ≡ true
unfolding bisnumber skip_one
Number-bisnumber (positive s u) = rw (no_minus u, bisnumber) (unsigned-true u)
Number-bisnumber (negative s u) = unsigned-true u
