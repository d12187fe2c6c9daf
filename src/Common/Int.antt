-- ===== src/Common/Int.antt =====
-- Go's `int` and `time.Duration`: signed, and `negsuc n` is -(n + 1). The code only compares them.
use Prim.Native.Nat.{ℕ}
use mathlib.Core.Bool.{Bool, false}
use kured.Common.Tests.{ltb}

pub data ℤ : Type 0 where
  pos : ℕ → ℤ
  negsuc : ℕ → ℤ

-- `0 < d`.
abbrev pub is_positive : ℤ → Bool
is_positive (pos n) = ltb 0 n
is_positive (negsuc n) = false

-- `n < m` and `m <= n`, at a length `n`.
abbrev pub less_than_int : ℕ → ℤ → Bool
less_than_int n (pos m) = ltb n m
less_than_int n (negsuc m) = false
