-- ===== src/Main/Start/Defaults.antt =====
-- cmd/kured/main.go: what the defaults of the flags make of the time window.
use kured.Common.{
  ℕ, zero, suc, ◌<◌, ◌≡◌, refl, subst, ◌∙◌, true, Option, some, Text, codes, lookup, text_eq, arith,
}
use kured.TimeWindow.Days.{every_day, parse_weekday}
use kured.TimeWindow.Days.Laws.{mentions}
use kured.TimeWindow.Clock.{TimeOfDay, parse_time}
use kured.TimeWindow.Window.{Location, TimeWindow, contains_time, new}
use kured.TimeWindow.Window.Hours.{RunsEvenly, in_hours, new-parts, contains_time-new}
use kured.Main.Settings.{Settings, default_settings}

every_day-mentions : (d : ℕ) → d < 7 → mentions every_day d ≡ true
unfolding parse_weekday lookup text_eq
every_day-mentions zero h = refl
every_day-mentions (suc zero) h = refl
every_day-mentions (suc (suc zero)) h = refl
every_day-mentions (suc (suc (suc zero))) h = refl
every_day-mentions (suc (suc (suc (suc zero)))) h = refl
every_day-mentions (suc (suc (suc (suc (suc zero))))) h = refl
every_day-mentions (suc (suc (suc (suc (suc (suc zero)))))) h = refl
every_day-mentions (suc (suc (suc (suc (suc (suc (suc d))))))) h = absurd (omega arith)

abbrev midnight : TimeOfDay
midnight = record { hour = 0; minute = 0; second = 0; nanosecond = 0 }

abbrev last_second : TimeOfDay
last_second = record { hour = 23; minute = 59; second = 59; nanosecond = 0 }

parse_time-start : parse_time (codes "0:00") ≡ some midnight
unfolding parse_time
parse_time-start = refl

parse_time-end : parse_time (codes "23:59:59") ≡ some last_second
unfolding parse_time
parse_time-end = refl

same_some : {A : Type 0} {a b : A} {o : Option A} → o ≡ some a → o ≡ some b → a ≡ b
same_some e e' = cc

all_hours : (clock : ℕ) → clock < 86400000000000 → in_hours midnight last_second clock ≡ true
all_hours clock h = ground arith

-- A node whose flags say nothing about the schedule may reboot at any time, at least on a date on which
-- the zone's clock runs evenly.
pub default_settings-contains :
    (Regexp : Type 0) (load_location : Text → Option Location) (w : TimeWindow) (t clock : ℕ)
    → let s : Settings Regexp = default_settings in
      new load_location s.reboot_days s.reboot_start s.reboot_end s.timezone ≡ some w
      → w.location.weekday t < 7
      → RunsEvenly w.location t clock
      → contains_time w t ≡ true
default_settings-contains Regexp load w t clock e day even =
    let (days, starts, ends) =
      new-parts load every_day (codes "0:00") (codes "23:59:59") (codes "UTC") w e in
    let start : midnight ≡ w.start_time = same_some parse_time-start starts in
    let end : last_second ≡ w.end_time = same_some parse_time-end ends in
    let hours : in_hours w.start_time w.end_time clock ≡ true =
      subst (λ a. in_hours a w.end_time clock ≡ true) start
        (subst (λ b. in_hours midnight b clock ≡ true) end (all_hours clock even.0)) in
    contains_time-new load every_day (codes "0:00") (codes "23:59:59") (codes "UTC") w t clock e
      even
    ∙ ground (arith, every_day-mentions (w.location.weekday t) day)
