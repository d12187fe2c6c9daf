-- ===== src/TimeWindow/Clock.antt =====
-- pkg/timewindow/timewindow.go: `parseTime`, with what it uses of Go's `time.ParseInLocation`: the
-- parts of its six formats. A text is a list of bytes.
pub mod Bounds
pub mod Print
use kured.Common.{
  ℕ, zero, suc, ◌+◌, ◌-◌, ◌*◌, ◌/◌, Bool, true, false, ◌&&◌, ◌||◌, Option, none, some, List, [],
  ◌∷◌, Text, ltb, leb, ◌==◌, if◌then◌else◌,
}
use kured.Checkers.{decimal}
use kured.Common.{pos, ◌++◌}
use kured.TimeWindow.Days.{is_digit}

pub record TimeOfDay : Type 0 where
  pub hour : ℕ
  pub minute : ℕ
  pub second : ℕ
  pub nanosecond : ℕ

pub data Half : Type 0 where
  unset am pm : Half

-- What has been parsed, and the half of the day.
pub record Parsed : Type 0 where
  pub time : TimeOfDay
  pub half : Half

-- The parts of the formats: `15`, `04`, `05`, `03`, `3`, `pm`, and `:`.
pub data Part : Type 0 where
  hour24 minutes seconds zero_hour12 hour12 am_or_pm colon : Part

abbrev digit : ℕ → ℕ
digit c = c - 48

-- `getnum`: two digits, or one if it is not `fixed`.
abbrev pub one_digit : ℕ → Text → Bool → Option (ℕ × Text)
one_digit c rest fixed = if fixed then none else some (digit c, rest)

unfoldable pub getnum : Text → Bool → Option (ℕ × Text)
getnum [] fixed = none
getnum (c ∷ []) fixed = if is_digit c then one_digit c [] fixed else none
getnum (c ∷ d ∷ s) fixed =
    if is_digit c
    then (if is_digit d then some (10 * digit c + digit d, s) else one_digit c (d ∷ s) fixed)
    else none

-- The digits of a fraction: at most nine count, from the tenth of a second on.
unfoldable pub fraction : Text → ℕ → ℕ × Text
fraction [] unit = (0, [])
fraction (c ∷ s) unit =
    let (n, rest) = fraction s (unit / 10) in
    if is_digit c then (digit c * unit + n, rest) else (0, c ∷ s)

-- After the seconds the parser takes a fraction that the format does not have.
unfoldable pub after_seconds : TimeOfDay → Text → TimeOfDay × Text
unfolding fraction
after_seconds t (c ∷ d ∷ s) =
    if (c == b'.' || c == b',') && is_digit d
    then (let (n, rest) = fraction (d ∷ s) 100000000 in (record t { nanosecond = n }, rest))
    else (t, c ∷ d ∷ s)
after_seconds t s = (t, s)

abbrev pub below :
    ℕ → Option (ℕ × Text) → (ℕ → Text → Option (Parsed × Text)) → Option (Parsed × Text)
below bound none k = none
below bound (some (n, s)) k = if ltb n bound then k n s else none

abbrev pub set_seconds : Parsed → TimeOfDay × Text → Option (Parsed × Text)
set_seconds p (t, s) = some (record p { time = t }, s)

unfoldable pub parse_part : Part → Text → Parsed → Option (Parsed × Text)
unfolding getnum after_seconds
parse_part hour24 s p =
    below 24 (getnum s false)
      (λ n rest. some (record p { time = record p.time { hour = n } }, rest))
parse_part zero_hour12 s p =
    below 13 (getnum s true) (λ n rest. some (record p { time = record p.time { hour = n } }, rest))
parse_part hour12 s p =
    below 13 (getnum s false)
      (λ n rest. some (record p { time = record p.time { hour = n } }, rest))
parse_part minutes s p =
    below 60 (getnum s true)
      (λ n rest. some (record p { time = record p.time { minute = n } }, rest))
parse_part seconds s p =
    below 60 (getnum s true)
      (λ n rest. set_seconds p (after_seconds (record p.time { second = n }) rest))
parse_part am_or_pm (c ∷ d ∷ s) p =
    if c == b'p' && d == b'm'
    then some (record p { half = pm }, s)
    else if c == b'a' && d == b'm'
    then some (record p { half = am }, s)
    else none
parse_part am_or_pm s p = none
parse_part colon (c ∷ s) p = if c == b':' then some (p, s) else none
parse_part colon [] p = none

-- The hour of the clock, of twelve hours or of 24.
abbrev pub to_hour24 : Half → ℕ → ℕ
to_hour24 pm h = if ltb h 12 then h + 12 else h
to_hour24 am h = if h == 12 then 0 else h
to_hour24 unset h = h

abbrev pub finish : Parsed → Text → Option TimeOfDay
finish p [] = some (record p.time { hour = to_hour24 p.half p.time.hour })
finish p (c ∷ s) = none

abbrev pub and_then : Option (Parsed × Text) → (Text → Parsed → Option TimeOfDay) → Option TimeOfDay
and_then none k = none
and_then (some (p, s)) k = k s p

unfoldable pub parse_parts : List Part → Text → Parsed → Option TimeOfDay
unfolding parse_part
parse_parts [] s p = finish p s
parse_parts (part ∷ parts) s p = and_then (parse_part part s p) (parse_parts parts)

-- The formats "15:04", "15:04:05", "03:04pm", "15", "03pm" and "3pm".
abbrev pub formats : List (List Part)
formats =
    (hour24 ∷ colon ∷ minutes ∷ [])
    ∷ (hour24 ∷ colon ∷ minutes ∷ colon ∷ seconds ∷ [])
    ∷ (zero_hour12 ∷ colon ∷ minutes ∷ am_or_pm ∷ [])
    ∷ (hour24 ∷ [])
    ∷ (zero_hour12 ∷ am_or_pm ∷ [])
    ∷ (hour12 ∷ am_or_pm ∷ [])
    ∷ []

abbrev pub start_of_day : Parsed
start_of_day = record {
  time = record { hour = 0; minute = 0; second = 0; nanosecond = 0 };
  half = unset;
}

abbrev pub or_else : Option TimeOfDay → Option TimeOfDay → Option TimeOfDay
or_else (some t) rest = some t
or_else none rest = rest

unfoldable pub try_formats : List (List Part) → Text → Option TimeOfDay
unfolding parse_parts
try_formats [] s = none
try_formats (f ∷ fs) s = or_else (parse_parts f s start_of_day) (try_formats fs s)

unfoldable pub parse_time : Text → Option TimeOfDay
unfolding try_formats
parse_time s = try_formats formats s

-- `%02d` of a number.
unfoldable pub two_digits : ℕ → Text
unfolding decimal
two_digits n = if ltb n 10 then 48 ∷ decimal (pos n) else decimal (pos n)

-- `%02d:%02d` of the hour and the minute.
unfoldable pub hour_and_minute : TimeOfDay → Text
unfolding two_digits
hour_and_minute t = two_digits t.hour ++ b':' ∷ two_digits t.minute
