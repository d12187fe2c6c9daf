-- ===== src/TimeWindow/Clock/Bounds.antt =====
-- What pkg/timewindow/timewindow.go's `parseTime` gives is a time of the clock.
use kured.Common.{
  ℕ, ◌-◌, ◌*◌, ◌/◌, ◌<◌, ◌≤◌, ◌≡◌, subst, true, false, ◌&&◌, ◌||◌, Option, none, some, List, [],
  ◌∷◌, Text, ltb, ◌==◌, arith, Bool-cases, inl, inr,
}
use native.Mathlib.Nat.{mul-le-mul_right}
use kured.TimeWindow.Days.{is_digit}
use kured.TimeWindow.Clock.{
  TimeOfDay, Half, unset, am, pm, Parsed, Part, hour24, minutes, seconds, zero_hour12, hour12,
  am_or_pm, colon, getnum, fraction, after_seconds, parse_part, finish, and_then, parse_parts,
  formats, start_of_day, or_else, try_formats, parse_time, below, to_hour24,
}

abbrev pub IsClockTime : TimeOfDay → Type 0
IsClockTime t = (t.hour < 24) × (t.minute < 60) × (t.second < 60) × (t.nanosecond < 1000000000)

fraction-le : (s : Text) (unit : ℕ) → (fraction s unit).0 ≤ 10 * unit - 1
unfolding fraction
fraction-le [] unit = omega arith
fraction-le (c ∷ s) unit = elim (Bool-cases (is_digit c)) [
  | inl e ↦
      let small : c - 48 ≤ 9 = ground arith in
      let product = mul-le-mul_right unit small in
      rw e (omega (arith, fraction-le s (unit / 10), product))
  | inr e ↦ rw e (omega arith)
]

after_seconds-IsClockTime :
    (t : TimeOfDay) (s : Text) → IsClockTime t → IsClockTime (after_seconds t s).0
unfolding after_seconds
after_seconds-IsClockTime t [] h = h
after_seconds-IsClockTime t (c ∷ []) h = h
after_seconds-IsClockTime t (c ∷ d ∷ s) (h, m, x, n) =
    elim (Bool-cases ((c == b'.' || c == b',') && is_digit d)) [
      | inl e ↦ rw e (h, m, x, omega (arith, fraction-le (d ∷ s) 100000000))
      | inr e ↦ rw e (h, m, x, n)
    ]

-- What is given, if anything, has the property.
abbrev pub Gives : {A : Type 0} → (A → Type 0) → Option A → Type 0
Gives P none = Unit
Gives P (some a) = P a

abbrev Fits : Parsed × Text → Type 0
Fits (p, s) = IsClockTime p.time

below-Gives :
    (bound : ℕ) (o : Option (ℕ × Text)) (k : ℕ → Text → Option (Parsed × Text))
    → ((n : ℕ) (s : Text) → n < bound → Gives Fits (k n s))
    → Gives Fits (below bound o k)
below-Gives bound none k f = tt
below-Gives bound (some (n, s)) k f = elim (Bool-cases (ltb n bound)) [
  | inl x ↦ rw x (f n s (ground arith))
  | inr x ↦ rw x tt
]

-- Each part keeps the bounds; an hour is below 13 or 24.
parse_part-Gives :
    (part : Part) (s : Text) (p : Parsed) → IsClockTime p.time → Gives Fits (parse_part part s p)
unfolding parse_part
parse_part-Gives hour24 s p (h, m, x, n) =
    below-Gives 24 (getnum s false) _ λ k s' small. (small, m, x, n)
parse_part-Gives zero_hour12 s p (h, m, x, n) =
    below-Gives 13 (getnum s true) _ λ k s' small. (omega arith, m, x, n)
parse_part-Gives hour12 s p (h, m, x, n) =
    below-Gives 13 (getnum s false) _ λ k s' small. (omega arith, m, x, n)
parse_part-Gives minutes s p (h, m, x, n) =
    below-Gives 60 (getnum s true) _ λ k s' small. (h, small, x, n)
parse_part-Gives seconds s p (h, m, x, n) =
    below-Gives 60 (getnum s true) _
      λ k s' small. after_seconds-IsClockTime (record p.time { second = k }) s' (h, m, small, n)
parse_part-Gives am_or_pm [] p h = tt
parse_part-Gives am_or_pm (c ∷ []) p h = tt
parse_part-Gives am_or_pm (c ∷ d ∷ s) p h = elim (Bool-cases (c == b'p' && d == b'm')) [
  | inl e ↦ rw e h
  | inr e ↦ elim (Bool-cases (c == b'a' && d == b'm')) [
    | inl e' ↦ rw (e, e') h
    | inr e' ↦ rw (e, e') tt
  ]
]
parse_part-Gives colon [] p h = tt
parse_part-Gives colon (c ∷ s) p h = elim (Bool-cases (c == b':')) [
  | inl e ↦ rw e h
  | inr e ↦ rw e tt
]

finish-Gives : (p : Parsed) (s : Text) → IsClockTime p.time → Gives IsClockTime (finish p s)
finish-Gives p (c ∷ s) h = tt
finish-Gives p [] (h, m, x, n) = (in_day p.half p.time.hour h, m, x, n)
  where
    in_day : (half : Half) (hour : ℕ) → hour < 24 → to_hour24 half hour < 24
    in_day unset hour b = b
    in_day am hour b = ground arith
    in_day pm hour b = ground arith

parse_parts-Gives :
    (parts : List Part) (s : Text) (p : Parsed)
    → IsClockTime p.time
    → Gives IsClockTime (parse_parts parts s p)
unfolding parse_parts
parse_parts-Gives [] s p h = finish-Gives p s h
parse_parts-Gives (part ∷ parts) s p h =
    next (λ s' q. parse_parts-Gives parts s' q) (parse_part part s p) (parse_part-Gives part s p h)
  where
    next :
        ((s' : Text) (q : Parsed) → IsClockTime q.time → Gives IsClockTime (parse_parts parts s' q))
        → (o : Option (Parsed × Text)) → Gives Fits o
        → Gives IsClockTime (and_then o (parse_parts parts))
    next ih none g = tt
    next ih (some (q, s')) g = ih s' q g

or_else-Gives :
    (o rest : Option TimeOfDay)
    → Gives IsClockTime o
    → Gives IsClockTime rest
    → Gives IsClockTime (or_else o rest)
or_else-Gives none rest g h = h
or_else-Gives (some t) rest g h = g

try_formats-Gives : (fs : List (List Part)) (s : Text) → Gives IsClockTime (try_formats fs s)
unfolding try_formats
try_formats-Gives [] s = tt
try_formats-Gives (f ∷ fs) s =
    or_else-Gives _ _
      (parse_parts-Gives f s start_of_day (omega arith, omega arith, omega arith, omega arith))
      (try_formats-Gives fs s)

Gives-some : {A : Type 0} (P : A → Type 0) (o : Option A) (a : A) → o ≡ some a → Gives P o → P a
Gives-some P o a e g = subst (Gives P) e g

-- What `parseTime` gives is a time of the clock: an hour below 24, a minute and a second below 60, and
-- a fraction of a second below one.
pub parse_time-IsClockTime : (s : Text) (t : TimeOfDay) → parse_time s ≡ some t → IsClockTime t
unfolding parse_time
parse_time-IsClockTime s t e = Gives-some IsClockTime _ t e (try_formats-Gives formats s)
