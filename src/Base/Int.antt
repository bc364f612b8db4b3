-- ===== src/Base/Int.antt =====
-- C's `int` as an unbounded integer, under the library's name and constructors: `negsuc n` is
-- -(n + 1).
use Prim.Native.Nat.{ℕ}

pub data ℤ : Type 0 where
  pos : ℕ → ℤ
  negsuc : ℕ → ℤ
