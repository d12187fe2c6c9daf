-- ===== src/Checkers/Decimal.antt =====
-- Numbers as pkg/checkers/checker.go prints them.
use kured.Common.{
  ℕ, zero, suc, ◌+◌, ◌*◌, ◌/◌, ◌%◌, ◌<◌, ◌≡◌, ◌∙◌, inl, inr, some, [], ◌∷◌, Text, pos, ltb, arith,
  Bool-cases,
}
use kured.Checkers.{decimal_from, decimal}
use kured.TimeWindow.Days.{digits}

pub digits-decimal_from :
    (fuel n : ℕ) (rest : Text) → n < fuel → digits (decimal_from fuel n rest) 0 ≡ digits rest n
unfolding digits decimal_from
digits-decimal_from zero n rest h = absurd (omega arith)
digits-decimal_from (suc fuel) n rest h = elim (Bool-cases (ltb n 10)) [
  | inl small ↦ rw small (ground arith)
  | inr large ↦
      let whole : 10 * (n / 10) + n % 10 ≡ n = omega arith in
      let before = digits-decimal_from fuel (n / 10) ((48 + n % 10) ∷ rest) (ground arith) in
      rw large (before ∙ ground arith)
]

-- The decimal digits that are printed for a number are those of the number: the fuel is enough.
pub digits-decimal : (n : ℕ) → digits (decimal (pos n)) 0 ≡ some n
unfolding digits decimal
digits-decimal n = digits-decimal_from (suc n) n [] (omega arith)
