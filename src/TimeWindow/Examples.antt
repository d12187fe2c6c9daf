-- ===== src/TimeWindow/Examples.antt =====
-- Concrete windows of pkg/timewindow, in UTC.
use kured.Common.{
  ℕ, ◌+◌, ◌*◌, ◌/◌, ◌%◌, ◌≡◌, refl, true, ◌&&◌, Option, none, some, List, [], ◌∷◌, Text, codes,
  text_eq, lookup, arith,
}
use kured.TimeWindow.Days.{contains, parse_weekdays, string}
use kured.TimeWindow.Days.Laws.{mentions, parse_weekdays-contains}
use kured.TimeWindow.Clock.{parse_time}
use kured.TimeWindow.Clock.{hour_and_minute}
use kured.TimeWindow.Clock.Print.{parse_time-hour_and_minute}
use kured.TimeWindow.Window.{window_string}
use kured.TimeWindow.Clock.Bounds.{IsClockTime, parse_time-IsClockTime}
use kured.TimeWindow.Window.{Location, TimeWindow, contains_time, new, one_day}
use kured.TimeWindow.Window.Hours.{RunsEvenly, in_hours, contains_time-new}

-- The first day of the year 1 was a Monday.
abbrev pub utc : Location
utc = record {
  weekday = λ t. (t / one_day + 1) % 7;
  date_of = λ t. t / one_day;
  date = λ d h m s n. d * one_day + (((h * 60 + m) * 60 + s) * 1000000000 + n);
}

abbrev pub load_utc : Text → Option Location
load_utc name = some utc

-- The cases of days_test.go.
abbrev numbers : List Text
numbers = codes "0" ∷ codes "4" ∷ []

abbrev spellings : List Text
spellings = codes "we" ∷ codes "WED" ∷ codes "WeDnEsDaY" ∷ []

parsed_numbers : parse_weekdays numbers ≡ some 17
unfolding parse_weekdays lookup text_eq
parsed_numbers = refl

parsed_spellings : parse_weekdays spellings ≡ some 8
unfolding parse_weekdays lookup text_eq
parsed_spellings = refl

rejected : parse_weekdays (codes "mon" ∷ codes "fridayyyy" ∷ []) ≡ none
unfolding parse_weekdays lookup text_eq
rejected = refl

printed : string 17 ≡ codes "Sun---------Thu------"
unfolding string
printed = refl

half_past :
    parse_time (codes "11:30am")
    ≡ some (record { hour = 11; minute = 30; second = 0; nanosecond = 0 })
unfolding parse_time
half_past = refl

midnight :
    parse_time (codes "12am") ≡ some (record { hour = 0; minute = 0; second = 0; nanosecond = 0 })
unfolding parse_time
midnight = refl

parse_weekdays-contains_example : contains 17 4 ≡ mentions numbers 4
parse_weekdays-contains_example = parse_weekdays-contains numbers 17 parsed_numbers 4

parse_time-IsClockTime_example :
    IsClockTime (record { hour = 11; minute = 30; second = 0; nanosecond = 0 })
parse_time-IsClockTime_example = parse_time-IsClockTime (codes "11:30am") _ half_past

-- From nine in the evening to five in the morning on Thursdays.
abbrev nights : TimeWindow
nights = record {
  days = 16;
  location = utc;
  start_time = record { hour = 21; minute = 0; second = 0; nanosecond = 0 };
  end_time = record { hour = 5; minute = 0; second = 0; nanosecond = 0 };
}

nights_made :
    new load_utc (codes "thu" ∷ []) (codes "9pm") (codes "5am") (codes "UTC") ≡ some nights
unfolding new lookup text_eq
nights_made = refl

-- Thursday, at one in the morning.
abbrev one_o_clock : ℕ
one_o_clock = 3600000000000

abbrev thursday : ℕ
thursday = 3 * one_day + one_o_clock

thursday_even : RunsEvenly utc thursday one_o_clock
thursday_even = (omega arith, λ h m s n. omega arith)

contains_time-new_example :
    contains_time nights thursday
    ≡ mentions (codes "thu" ∷ []) 4 && in_hours nights.start_time nights.end_time one_o_clock
contains_time-new_example =
    contains_time-new load_utc (codes "thu" ∷ []) (codes "9pm") (codes "5am") (codes "UTC") nights
      thursday one_o_clock nights_made thursday_even

thursday_contained : contains_time nights thursday ≡ true
unfolding contains_time
thursday_contained = refl

nights_printed :
    window_string (codes "UTC") nights ≡ codes "------------Thu------ between 21:00 and 05:00 UTC"
unfolding window_string
nights_printed = refl

parse_time-hour_and_minute_example :
    parse_time (hour_and_minute nights.start_time)
    ≡ some (record { hour = 21; minute = 0; second = 0; nanosecond = 0 })
parse_time-hour_and_minute_example =
    parse_time-hour_and_minute nights.start_time (omega arith) (omega arith)
