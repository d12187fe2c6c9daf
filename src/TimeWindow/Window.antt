-- ===== src/TimeWindow/Window.antt =====
-- pkg/timewindow/timewindow.go: `TimeWindow`. Times are nanoseconds since the year 1.
pub mod Hours
use kured.Common.{
  ℕ, ◌+◌, ◌-◌, ◌*◌, Bool, true, false, ◌&&◌, ◌||◌, not, Option, none, some, List, Text, ltb, leb,
  ◌==◌, if◌then◌else◌,
}
use kured.Common.{◌++◌, codes}
use kured.TimeWindow.Days.{contains, parse_weekdays, string}
use kured.TimeWindow.Clock.{TimeOfDay, parse_time, hour_and_minute}

-- What the code asks of a zone: the weekday and the date of a time, and `time.Date`, the time at a
-- clock time of a date. A date is the number of days since a fixed one.
pub record Location : Type 0 where
  pub weekday : ℕ → ℕ
  pub date_of : ℕ → ℕ
  pub date : (date hour minute second nanosecond : ℕ) → ℕ

pub record TimeWindow : Type 0 where
  pub days : ℕ
  pub location : Location
  pub start_time : TimeOfDay
  pub end_time : TimeOfDay

-- `24 * time.Hour`.
abbrev pub one_day : ℕ
one_day = 86400000000000

-- `startTime` and `endTime` are on the same date, so that their clock times tell which is later.
abbrev pub nanoseconds : TimeOfDay → ℕ
nanoseconds t = ((t.hour * 60 + t.minute) * 60 + t.second) * 1000000000 + t.nanosecond

abbrev pub after : TimeOfDay → TimeOfDay → Bool
after t u = ltb (nanoseconds u) (nanoseconds t)

-- The start and the end around a time. A start before the year 1 stops at it, as no time is before.
abbrev pub wrap : Bool → ℕ → ℕ → ℕ → ℕ × ℕ
wrap wraps t start end =
    if wraps
    then (if ltb t end then (start - one_day, end) else (start, end + one_day))
    else (start, end)

abbrev pub is_between : ℕ → ℕ × ℕ → Bool
is_between t (start, end) = (ltb start t || t == start) && (ltb t end || t == end)

unfoldable pub contains_time : TimeWindow → ℕ → Bool
unfolding contains
contains_time tw t =
    if not (contains tw.days (tw.location.weekday t))
    then false
    else is_between t (
        wrap (after tw.start_time tw.end_time) t
          (tw.location.date (tw.location.date_of t) tw.start_time.hour tw.start_time.minute
            tw.start_time.second 0)
          (tw.location.date (tw.location.date_of t) tw.end_time.hour tw.end_time.minute
            tw.end_time.second 999999999))

-- The steps of `New`, each of which may return an error.
abbrev pub with_end : ℕ → Location → TimeOfDay → Option TimeOfDay → Option TimeWindow
with_end days loc start none = none
with_end days loc start (some end) =
    some (record { days = days; location = loc; start_time = start; end_time = end })

abbrev pub with_start : ℕ → Location → Text → Option TimeOfDay → Option TimeWindow
with_start days loc end none = none
with_start days loc end (some start) = with_end days loc start (parse_time end)

abbrev pub with_location : ℕ → Text → Text → Option Location → Option TimeWindow
with_location days start end none = none
with_location days start end (some loc) = with_start days loc end (parse_time start)

abbrev pub with_days : (Text → Option Location) → Text → Text → Text → Option ℕ → Option TimeWindow
with_days load_location start end location none = none
with_days load_location start end location (some days) =
    with_location days start end (load_location location)

-- `New`, with `time.LoadLocation` as an argument.
unfoldable pub new :
    (load_location : Text → Option Location)
    → (days : List Text) → (start_time end_time location : Text) → Option TimeWindow
unfolding parse_weekdays parse_time
new load_location days start_time end_time location =
    with_days load_location start_time end_time location (parse_weekdays days)

-- `String`, with the zone's name as an argument.
unfoldable pub window_string : (zone : Text) → TimeWindow → Text
unfolding string hour_and_minute
window_string zone tw =
    string tw.days
    ++ codes " between "
    ++ hour_and_minute tw.start_time
    ++ codes " and "
    ++ hour_and_minute tw.end_time
    ++ codes " "
    ++ zone
