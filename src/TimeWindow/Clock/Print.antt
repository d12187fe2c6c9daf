-- ===== src/TimeWindow/Clock/Print.antt =====
-- The clock times that `String` of pkg/timewindow/timewindow.go prints, and that `parseTime` reads them.
use kured.Common.{
  ℕ, zero, suc, ◌+◌, ◌*◌, ◌/◌, ◌%◌, ◌<◌, ◌≡◌, refl, ap, ◌∙◌, inl, inr, Bool, true, false, some, [],
  ◌∷◌, Text, ltb, arith, Bool-cases,
}
use kured.Checkers.{decimal, decimal_from}
use kured.TimeWindow.Days.{is_digit}
use kured.TimeWindow.Clock.{
  TimeOfDay, getnum, parse_part, parse_parts, try_formats, parse_time, hour_and_minute, two_digits,
  start_of_day, hour24, minutes, colon, formats,
}

decimal_from-digit :
    (fuel n : ℕ) (rest : Text) → n < 10 → decimal_from (suc fuel) n rest ≡ (48 + n) ∷ rest
unfolding decimal_from
decimal_from-digit fuel n rest h = ground arith

two_digits_lem : (n : ℕ) → n < 100 → two_digits n ≡ (48 + n / 10) ∷ (48 + n % 10) ∷ []
unfolding two_digits decimal decimal_from
two_digits_lem n h = elim (Bool-cases (ltb n 10)) [
  | inl small ↦
      let tens : n / 10 ≡ 0 = ground arith in
      let ones : n % 10 ≡ n = ground arith in rw (small, tens, ones) refl
  | inr large ↦ rw large (split n large h)
]
  where
    split :
        (m : ℕ)
        → ltb m 10 ≡ false
        → m < 100
        → decimal_from m (m / 10) ((48 + m % 10) ∷ []) ≡ (48 + m / 10) ∷ (48 + m % 10) ∷ []
    split zero l h' = absurd (ground arith)
    split (suc k) l h' = decimal_from-digit k (suc k / 10) _ (omega arith)

getnum-digits :
    (a b : ℕ) (s : Text) (fixed : Bool)
    → a < 10
    → b < 10
    → getnum ((48 + a) ∷ (48 + b) ∷ s) fixed ≡ some (10 * a + b, s)
unfolding getnum
getnum-digits a b s fixed ha hb =
    let first : is_digit (48 + a) ≡ true = ground arith in
    let second : is_digit (48 + b) ≡ true = ground arith in rw (first, second) (ground arith)

getnum-number :
    (n : ℕ) (s : Text) (fixed : Bool)
    → n < 100
    → getnum ((48 + n / 10) ∷ (48 + n % 10) ∷ s) fixed ≡ some (n, s)
getnum-number n s fixed h =
    let whole : 10 * (n / 10) + n % 10 ≡ n = omega arith in
    getnum-digits (n / 10) (n % 10) s fixed (omega arith) (omega arith)
    ∙ ap (λ k. some (k, s)) whole

-- The text of an hour and a minute.
abbrev text : ℕ → ℕ → Text
text h m = (48 + h / 10) ∷ (48 + h % 10) ∷ b':' ∷ (48 + m / 10) ∷ (48 + m % 10) ∷ []

parse_parts-text :
    (h m : ℕ)
    → h < 24
    → m < 60
    → parse_parts (hour24 ∷ colon ∷ minutes ∷ []) (text h m) start_of_day
      ≡ some (record { hour = h; minute = m; second = 0; nanosecond = 0 })
unfolding parse_parts parse_part
parse_parts-text h m hh mm =
    let hours = getnum-number h (b':' ∷ (48 + m / 10) ∷ (48 + m % 10) ∷ []) false (omega arith) in
    let mins = getnum-number m [] true (omega arith) in
    let h' : ltb h 24 ≡ true = ground arith in
    let m' : ltb m 60 ≡ true = ground arith in rw (hours, h', mins, m') refl

-- The hour and the minute of a time of the clock that `String` prints are read back by `parseTime`.
pub parse_time-hour_and_minute :
    (t : TimeOfDay)
    → t.hour < 24
    → t.minute < 60
    → parse_time (hour_and_minute t)
      ≡ some (record { hour = t.hour; minute = t.minute; second = 0; nanosecond = 0 })
unfolding parse_time hour_and_minute
parse_time-hour_and_minute t h m =
    let printed : hour_and_minute t ≡ text t.hour t.minute =
      rw (two_digits_lem t.hour (omega arith), two_digits_lem t.minute (omega arith)) refl in
    ap (try_formats formats) printed ∙ first t.hour t.minute (parse_parts-text t.hour t.minute h m)
  where
    first :
        (h' m' : ℕ)
        → parse_parts (hour24 ∷ colon ∷ minutes ∷ []) (text h' m') start_of_day
          ≡ some (record { hour = h'; minute = m'; second = 0; nanosecond = 0 })
        → try_formats formats (text h' m')
          ≡ some (record { hour = h'; minute = m'; second = 0; nanosecond = 0 })
    first h' m' e = rw e refl
