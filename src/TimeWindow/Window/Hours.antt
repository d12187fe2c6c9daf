-- ===== src/TimeWindow/Window/Hours.antt =====
-- When pkg/timewindow/timewindow.go lets a node reboot.
use kured.Common.{
  ℕ, ◌+◌, ◌*◌, ◌<◌, ◌≡◌, refl, inl, inr, Bool, true, false, ◌&&◌, ◌||◌, ltb, leb, if◌then◌else◌,
  arith, Bool-cases, Option, some, List, Text, Option-cases,
}
use kured.TimeWindow.Days.{contains, parse_weekdays}
use kured.TimeWindow.Days.Laws.{mentions, parse_weekdays-contains}
use kured.TimeWindow.Clock.{TimeOfDay, parse_time}
use kured.TimeWindow.Clock.Bounds.{IsClockTime, parse_time-IsClockTime}
use kured.TimeWindow.Window.{
  Location, TimeWindow, one_day, after, wrap, is_between, contains_time, new,
}

-- On the date of the time `t` the zone's clock runs evenly, and shows `clock` at `t`.
abbrev pub RunsEvenly : Location → ℕ → ℕ → Type 0
RunsEvenly loc t clock =
    (clock < one_day)
    × ((h m s n : ℕ)
        → loc.date (loc.date_of t) h m s n + clock ≡ t + (((h * 60 + m) * 60 + s) * 1000000000 + n))

-- The first nanosecond of the start and the last one of the end.
abbrev first : TimeOfDay → ℕ
first t = ((t.hour * 60 + t.minute) * 60 + t.second) * 1000000000

abbrev last : TimeOfDay → ℕ
last t = ((t.hour * 60 + t.minute) * 60 + t.second) * 1000000000 + 999999999

-- The hours by the clock alone.
abbrev pub in_hours : TimeOfDay → TimeOfDay → ℕ → Bool
in_hours start end clock =
    if after start end
    then leb (first start) clock || ltb clock (last end)
    else leb (first start) clock && leb clock (last end)

is_between-wrap :
    (t clock start end first' last' : ℕ) (wraps : Bool)
    → clock < one_day
    → first' < one_day
    → last' < one_day
    → start + clock ≡ t + first'
    → end + clock ≡ t + last'
    → is_between t (wrap wraps t start end)
      ≡ (if wraps then leb first' clock || ltb clock last' else leb first' clock && leb clock last')
is_between-wrap t clock start end first' last' true c f l s e = ground arith
is_between-wrap t clock start end first' last' false c f l s e = ground arith

-- On a date on which the zone's clock runs evenly, a window contains a time exactly if its set has the
-- weekday and the clock is in the hours: from the start to the last nanosecond of the end's second,
-- or, if the start is after the end, from the start to midnight and from midnight to before that
-- last nanosecond.
pub contains_time-in_hours :
    (tw : TimeWindow) (t clock : ℕ)
    → IsClockTime tw.start_time
    → IsClockTime tw.end_time
    → RunsEvenly tw.location t clock
    → contains_time tw t
      ≡ contains tw.days (tw.location.weekday t) && in_hours tw.start_time tw.end_time clock
unfolding contains_time
contains_time-in_hours tw t clock (h, m, s, n) (h', m', s', n') (short, even) =
    elim (Bool-cases (contains tw.days (tw.location.weekday t))) [
      | inl e ↦ rw e (
          is_between-wrap t clock _ _ (first tw.start_time) (last tw.end_time)
            (after tw.start_time tw.end_time) short (omega arith) (omega arith)
            (omega (arith, even tw.start_time.hour tw.start_time.minute tw.start_time.second 0))
            (even _ _ _ _))
      | inr e ↦ rw e refl
    ]

module _ (load_location : Text → Option Location) (days : List Text) where
  module _ (start end location : Text) where
    -- What `New` has parsed.
    pub new-parts :
        (tw : TimeWindow)
        → new load_location days start end location ≡ some tw
        → (parse_weekdays days ≡ some tw.days)
          × (parse_time start ≡ some tw.start_time)
          × (parse_time end ≡ some tw.end_time)
    unfolding new
    new-parts tw e = elim (Option-cases (parse_weekdays days)) [
      | inl x ↦ absurd (ground arith)
      | inr (d, day) ↦ elim (Option-cases (load_location location)) [
        | inl x ↦ absurd (ground arith)
        | inr (l, loc) ↦ elim (Option-cases (parse_time start)) [
          | inl x ↦ absurd (ground arith)
          | inr (s, starts) ↦ elim (Option-cases (parse_time end)) [
            | inl x ↦ absurd (ground arith)
            | inr (n, ends) ↦ ground arith
          ]
        ]
      ]
    ]

    -- A window that `New` makes contains a time, on a date on which the zone's clock runs evenly,
    -- exactly if one of the texts for the days names the weekday and the clock is in the hours: from
    -- the start to the last nanosecond of the end's second, or, if the start is after the end, from
    -- the start to midnight and from midnight to before that last nanosecond.
    pub contains_time-new :
        (tw : TimeWindow) (t clock : ℕ)
        → new load_location days start end location ≡ some tw
        → RunsEvenly tw.location t clock
        → contains_time tw t
          ≡ mentions days (tw.location.weekday t) && in_hours tw.start_time tw.end_time clock
    contains_time-new tw t clock e even =
        let (day, starts, ends) = new-parts tw e in
        rw (← parse_weekdays-contains days tw.days day (tw.location.weekday t)) (
          contains_time-in_hours tw t clock (parse_time-IsClockTime start tw.start_time starts)
            (parse_time-IsClockTime end tw.end_time ends) even)
