-- ===== src/Calculator/Number/Printing.antt =====
-- `num2Str` of src/calculator.c: what the loop of the automatic precision prints, and when it does
-- not end.
use likwid_bench.Base.{ℕ, ◌⊎◌, Option, ◌≤◌, ◌<◌, ◌≡◌, true, false, none, some}
use likwid_bench.Base.Strings.{Str}
use likwid_bench.Base.Int.{pos, negsuc}
use likwid_bench.Calculator.Number.{Double, Preferences, max_precision, print_at, ends_in_zero}

module _ (d : Double) (prefs : Preferences) (num : d.Num) where
  -- The text at the precision `n` does not end in '0', and that at every greater one up to `p` does.
  abbrev pub LastNonzero : ℕ → ℕ → Type 0
  LastNonzero p n =
      (n ≤ p)
      × ((q : ℕ) → n < q → q ≤ p → ends_in_zero d prefs (pos q) num ≡ true)
      × (ends_in_zero d prefs (pos n) num ≡ false)

  abbrev pub AllZeros : ℕ → Type 0
  AllZeros p = (q : ℕ) → q ≤ p → ends_in_zero d prefs (pos q) num ≡ true

  -- What the loop of the automatic precision comes to.
  abbrev pub Printed : Option Str → Type 0
  Printed r =
      ((n : ℕ) × (LastNonzero max_precision n × (r ≡ some (print_at d prefs (pos n) num))))
      ⊎ (AllZeros max_precision
          × (((ends_in_zero d prefs (negsuc 0) num ≡ false)
                × (r ≡ some (print_at d prefs (negsuc 0) num)))
              ⊎ ((ends_in_zero d prefs (negsuc 0) num ≡ true) × (r ≡ none))))
