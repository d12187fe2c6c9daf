-- ===== src/Main/Env/Numbers.antt =====
-- cmd/kured/main.go: a number that `LoadFromEnv` has read is the one that it writes.
use kured.Common.{
  ℕ, zero, suc, ◌+◌, ◌*◌, ◌/◌, ◌%◌, ◌<◌, ◌≤◌, ◌≡◌, ◌∙◌, refl, ap, subst, ◌==◌, inl, inr, true,
  Option, none, some, [], ◌∷◌, Text, ℤ, pos, negsuc, ltb, leb, arith, Bool-cases,
}
use kured.Checkers.{decimal_from, decimal}
use kured.Checkers.Decimal.{digits-decimal_from, digits-decimal}
use kured.TimeWindow.Days.{digits, is_digit, max_int, to_positive, to_negative, unsigned, atoi}
use kured.Main.Env.{itoa}

-- The numbers of an int of 64 bits.
abbrev pub IsInt : ℤ → Type 0
IsInt (pos n) = n ≤ max_int
IsInt (negsuc n) = n ≤ max_int

abbrev StartsWithDigit : Text → Type 0
StartsWithDigit [] = ⊥
StartsWithDigit (c ∷ s) = is_digit c ≡ true

decimal_from-StartsWithDigit :
    (fuel n : ℕ) (rest : Text) → n < fuel → StartsWithDigit (decimal_from fuel n rest)
unfolding decimal_from
decimal_from-StartsWithDigit zero n rest h = absurd (omega arith)
decimal_from-StartsWithDigit (suc fuel) n rest h = elim (Bool-cases (ltb n 10)) [
  | inl small ↦ rw small (ground arith)
  | inr large ↦
      let whole : 10 * (n / 10) + n % 10 ≡ n = omega arith in
      let more = decimal_from-StartsWithDigit fuel (n / 10) ((48 + n % 10) ∷ rest) (ground arith) in
      rw large more
]

atoi-digits : (t : Text) → StartsWithDigit t → atoi t ≡ to_positive (digits t 0)
unfolding atoi
atoi-digits [] h = absurd h
atoi-digits (c ∷ s) h = ground arith

unsigned-digits : (t : Text) → StartsWithDigit t → unsigned t ≡ digits t 0
unsigned-digits [] h = absurd h
unsigned-digits (c ∷ s) h = refl

pub atoi-itoa : (z : ℤ) → IsInt z → atoi (itoa z) ≡ some z
unfolding decimal atoi digits
atoi-itoa (pos n) h =
    atoi-digits _ (decimal_from-StartsWithDigit (suc n) n [] (omega arith))
    ∙ (ap to_positive (digits-decimal n) ∙ ground arith)
atoi-itoa (negsuc n) h =
    ap to_negative (
      unsigned-digits _ (decimal_from-StartsWithDigit (suc (suc n)) (suc n) [] (omega arith))
      ∙ digits-decimal_from (suc (suc n)) (suc n) [] (omega arith))
    ∙ ground arith

to_positive-IsInt : (o : Option ℕ) (z : ℤ) → to_positive o ≡ some z → IsInt z
to_positive-IsInt none z e = absurd (ground arith)
to_positive-IsInt (some n) z e = elim (Bool-cases (leb n max_int)) [
  | inl fits ↦ let same : pos n ≡ z = ground arith in subst IsInt same (ground arith)
  | inr large ↦ absurd (ground arith)
]

to_negative-IsInt : (o : Option ℕ) (z : ℤ) → to_negative o ≡ some z → IsInt z
to_negative-IsInt none z e = absurd (ground arith)
to_negative-IsInt (some zero) z e =
    let same : pos 0 ≡ z = ground arith in subst IsInt same (omega arith)
to_negative-IsInt (some (suc n)) z e = elim (Bool-cases (leb n max_int)) [
  | inl fits ↦ let same : negsuc n ≡ z = ground arith in subst IsInt same (ground arith)
  | inr large ↦ absurd (ground arith)
]

-- What is read is an int, so that it can be written and read again.
atoi-IsInt : (t : Text) (z : ℤ) → atoi t ≡ some z → IsInt z
unfolding atoi
atoi-IsInt [] z e = absurd (ground arith)
atoi-IsInt (c ∷ s) z e = elim (Bool-cases (c == b'-')) [
  | inl minus ↦ to_negative-IsInt (unsigned s) z (rw minus at e)
  | inr other ↦ elim (Bool-cases (c == b'+')) [
    | inl plus ↦ to_positive-IsInt (unsigned s) z (rw (other, plus) at e)
    | inr digit ↦ to_positive-IsInt (digits (c ∷ s) 0) z (rw (other, digit) at e)
  ]
]

pub atoi-itoa-atoi : (t : Text) (z : ℤ) → atoi t ≡ some z → atoi (itoa z) ≡ some z
atoi-itoa-atoi t z e = atoi-itoa z (atoi-IsInt t z e)
