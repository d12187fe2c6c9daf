-- ===== src/TimeWindow/Days.antt =====
-- pkg/timewindow/days.go: sets of weekdays, their parser and their text. A text is a list of code
-- points here.
pub mod Laws
use kured.Common.{
  ℕ, zero, suc, ◌+◌, ◌-◌, ◌*◌, ◌/◌, ◌%◌, Bool, true, false, ◌&&◌, ◌||◌, Option, none, some, List,
  [], ◌∷◌, ◌++◌, map, Text, codes, lookup, ℤ, pos, negsuc, ltb, leb, ◌==◌, if◌then◌else◌,
}

-- A set is a uint32 whose bit `d` is set for the day `d`, Sunday first: `w & (1 << d) != 0`, and
-- `w | (1 << d)`, bit by bit.
unfoldable pub contains : ℕ → ℕ → Bool
contains w zero = w % 2 == 1
contains w (suc d) = contains (w / 2) d

unfoldable pub set_bit : ℕ → ℕ → ℕ
set_bit w zero = if w % 2 == 1 then w else w + 1
set_bit w (suc d) = 2 * set_bit (w / 2) d + w % 2

abbrev pub every_day : List Text
every_day =
    codes "su" ∷ codes "mo" ∷ codes "tu" ∷ codes "we" ∷ codes "th" ∷ codes "fr" ∷ codes "sa" ∷ []

abbrev pub day_strings : List (Text × ℕ)
day_strings =
    (codes "su", 0)
    ∷ (codes "sun", 0)
    ∷ (codes "sunday", 0)
    ∷ (codes "mo", 1)
    ∷ (codes "mon", 1)
    ∷ (codes "monday", 1)
    ∷ (codes "tu", 2)
    ∷ (codes "tue", 2)
    ∷ (codes "tuesday", 2)
    ∷ (codes "we", 3)
    ∷ (codes "wed", 3)
    ∷ (codes "wednesday", 3)
    ∷ (codes "th", 4)
    ∷ (codes "thu", 4)
    ∷ (codes "thursday", 4)
    ∷ (codes "fr", 5)
    ∷ (codes "fri", 5)
    ∷ (codes "friday", 5)
    ∷ (codes "sa", 6)
    ∷ (codes "sat", 6)
    ∷ (codes "saturday", 6)
    ∷ []

abbrev pub is_digit : ℕ → Bool
is_digit c = leb 48 c && leb c 57

-- `strconv.Atoi`: an optional sign and digits, with a value that an int64 holds.
unfoldable pub digits : Text → ℕ → Option ℕ
digits [] n = some n
digits (c ∷ s) n = if is_digit c then digits s (10 * n + (c - 48)) else none

abbrev pub max_int : ℕ
max_int = 9223372036854775807

abbrev pub to_positive : Option ℕ → Option ℤ
to_positive none = none
to_positive (some n) = if leb n max_int then some (pos n) else none

abbrev pub to_negative : Option ℕ → Option ℤ
to_negative none = none
to_negative (some zero) = some (pos 0)
to_negative (some (suc n)) = if leb n max_int then some (negsuc n) else none

abbrev pub unsigned : Text → Option ℕ
unsigned [] = none
unsigned (c ∷ s) = digits (c ∷ s) 0

unfoldable pub atoi : Text → Option ℤ
unfolding digits
atoi [] = none
atoi (c ∷ s) =
    if c == b'-'
    then to_negative (unsigned s)
    else if c == b'+'
    then to_positive (unsigned s)
    else to_positive (digits (c ∷ s) 0)

-- `strings.ToLower`, a code point at a time: the capitals of ASCII, and the two others, U+0130 and
-- U+212A, whose lower case is in ASCII. All others stay out of ASCII, where no name of a day is.
abbrev pub lower : ℕ → ℕ
lower c =
    if leb 65 c && leb c 90 then c + 32 else if c == 304 then 105 else if c == 8490 then 107 else c

abbrev pub in_week : ℤ → Option ℕ
in_week (pos n) = if ltb n 7 then some n else none
in_week (negsuc n) = none

abbrev pub by_name : Text → Option ℤ → Option ℕ
by_name day (some n) = in_week n
by_name day none = lookup (map lower day) day_strings

unfoldable pub parse_weekday : Text → Option ℕ
unfolding atoi
parse_weekday day = by_name day (atoi day)

abbrev pub is_empty : Text → Bool
is_empty [] = true
is_empty (c ∷ s) = false

abbrev pub add_day : Option ℕ → (ℕ → Option ℕ) → ℕ → Option ℕ
add_day none rest result = none
add_day (some d) rest result = rest (set_bit result d)

-- The loop of `parseWeekdays`, with its variable `result`.
unfoldable pub parse_from : List Text → ℕ → Option ℕ
unfolding parse_weekday set_bit
parse_from [] result = some result
parse_from (day ∷ days) result =
    if is_empty day
    then parse_from days result
    else add_day (parse_weekday day) (parse_from days) result

unfoldable pub parse_weekdays : List Text → Option ℕ
unfolding parse_from
parse_weekdays days = parse_from days 0

-- `time.Weekday(i).String()[0:3]`.
abbrev pub day_name : ℕ → Text
day_name i =
    if i == 0
    then codes "Sun"
    else if i == 1
    then codes "Mon"
    else if i == 2
    then codes "Tue"
    else if i == 3
    then codes "Wed"
    else if i == 4
    then codes "Thu"
    else if i == 5
    then codes "Fri"
    else codes "Sat"

abbrev pub day_text : ℕ → Bool → Text
day_text i true = day_name i
day_text i false = codes "---"

-- The loop of `String`, which has `n` rounds left.
unfoldable pub string_from : ℕ → ℕ → ℕ → Text
unfolding contains
string_from zero i w = []
string_from (suc n) i w = day_text i (contains w i) ++ string_from n (suc i) w

unfoldable pub string : ℕ → Text
unfolding string_from
string w = string_from 7 0 w
