-- ===== src/Calculator/Correct.antt =====
-- `postfix` of src/calculator.c against the value of a formula.
use likwid_bench.Base.{
  ℕ, ◌≤◌, ◌≡◌, refl, sym, ◌∙◌, ap, Bool, true, false, Option, none, some, List, [], ◌∷◌, arith,
  length,
}
use likwid_bench.Calculator.Chars.{Token}
use likwid_bench.Calculator.Number.{Double}
use likwid_bench.Calculator.Func.{returning, Outcome, done, fault, ◌>>=◌, is_separator}
use likwid_bench.Calculator.Machine.{drain, run, finish, postfix}
use likwid_bench.Calculator.Formula.{Sum, sum_tokens, emit_sum}
use likwid_bench.Calculator.Value.{sum_value}
use likwid_bench.Calculator.Order.{sum_order}
use likwid_bench.Calculator.Stops.{>>=_assoc}
use likwid_bench.Calculator.Emits.{Emits, sum_Emits}

-- What `postfix` does for a formula of a given value.
abbrev pub Computes : Option Token → Outcome (List Token) → Type 0
Computes (some v) m = m ≡ done (v ∷ [])
Computes none m = (s : List Token) × (m ≡ fault s)

module _ (d : Double) (degrees : Bool) (num2str : d.Num → Token) (cap : ℕ)
    (plain : (x : d.Num) → is_separator (num2str x) ≡ false) where
  finish-Computes :
      (value_of : Option Token) (m : Outcome (List Token))
      → Emits value_of [] m
      → Computes value_of
          (m >>= λ u. drain d degrees (returning num2str) cap (λ _. true) [] u >>= λ s. done (s.1))
  unfolding drain
  finish-Computes none m (s, h) = (s, rw h)
  finish-Computes (some v) m (h, free) = rw h

  postfix_emit :
      (e : Sum)
      → length (sum_tokens e) ≤ cap
      → postfix d degrees (returning num2str) cap (sum_tokens e) ≡ (
          emit_sum d degrees (returning num2str) cap e [] >>= λ u.
          drain d degrees (returning num2str) cap (λ _. true) [] u >>= λ s. done (s.1))
  unfolding postfix finish
  postfix_emit e room =
      sym (
        >>=_assoc (run d degrees (returning num2str) cap (sum_tokens e) ([], []))
          (λ s. drain d degrees (returning num2str) cap (λ _. true) (s.0) (s.1)) (λ s. done (s.1)))
      ∙ ap (λ m. m >>= λ s. done (s.1))
          (sum_order d degrees (returning num2str) cap e [] [] (λ _. true) (omega arith) refl
            (omega arith) (λ o above r. refl))
      ∙ >>=_assoc (emit_sum d degrees (returning num2str) cap e [])
          (λ u. drain d degrees (returning num2str) cap (λ _. true) [] u) (λ s. done (s.1))

-- postfix, with a stack of the number of tokens, as the program makes it, on the tokens of any formula
-- of the grammar (operators by their precedence, powers from the right, parentheses, aggregates
-- of one argument or more) leaves one token, the formula's value by recursion on its syntax tree;
-- where a division or a modulo by zero occurs in the tree it fails. The printing of numbers is taken
-- to return for each of them, with a text other than the separator "|".
pub postfix-sum_value :
    (d : Double) (degrees : Bool) (num2str : d.Num → Token)
    (plain : (x : d.Num) → is_separator (num2str x) ≡ false) (e : Sum)
    → Computes
        (sum_value d num2str e)
        (postfix d degrees (returning num2str) (length (sum_tokens e)) (sum_tokens e))
postfix-sum_value d degrees num2str plain e =
    let cap = length (sum_tokens e) in
    rw (postfix_emit d degrees num2str cap plain e (omega arith)) (
      finish-Computes d degrees num2str cap plain (sum_value d num2str e)
        (emit_sum d degrees (returning num2str) cap e [])
        (sum_Emits d degrees num2str cap plain e [] (omega arith)))
