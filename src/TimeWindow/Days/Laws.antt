-- ===== src/TimeWindow/Days/Laws.antt =====
-- What pkg/timewindow/days.go parses and prints.
use kured.Common.{
  ℕ, zero, suc, ◌+◌, ◌*◌, ◌/◌, ◌%◌, ◌≤◌, ◌<◌, ◌≡◌, refl, subst, inl, inr, Bool, true, false, ◌&&◌,
  ◌||◌, not, Option, none, some, List, [], ◌∷◌, ◌++◌, Text, ◌==◌, arith, Option-cases, Bool-cases,
}
use kured.TimeWindow.Days.{
  contains, set_bit, parse_weekday, is_empty, parse_from, parse_weekdays, day_text, string_from,
  string,
}

contains-set_bit : (w k d : ℕ) → contains (set_bit w k) d ≡ (k == d) || contains w d
unfolding contains set_bit
contains-set_bit w zero zero = ground arith
contains-set_bit w zero (suc d) =
    let half : set_bit w 0 / 2 ≡ w / 2 = ground arith in
    let apart : (0 == suc d) ≡ false = ground arith in rw (half, apart) refl
contains-set_bit w (suc k) zero = ground arith
contains-set_bit w (suc k) (suc d) =
    let half : (2 * set_bit (w / 2) k + w % 2) / 2 ≡ set_bit (w / 2) k = omega arith in
    let same : (suc k == suc d) ≡ (k == d) = ground arith in
    rw (half, same) (contains-set_bit (w / 2) k d)

contains-zero : (d : ℕ) → contains 0 d ≡ false
unfolding contains
contains-zero zero = refl
contains-zero (suc d) = contains-zero d

-- The text names the day.
abbrev names : Option ℕ → ℕ → Bool
names none d = false
names (some k) d = k == d

-- One of the texts that are not empty names the day.
abbrev pub mentions : List Text → ℕ → Bool
mentions [] d = false
mentions (day ∷ days) d = (not (is_empty day) && names (parse_weekday day) d) || mentions days d

parse_from-contains :
    (days : List Text) (result w : ℕ)
    → parse_from days result ≡ some w
    → (d : ℕ) → contains w d ≡ mentions days d || contains result d
unfolding parse_from
parse_from-contains [] result w e d = ground arith
parse_from-contains (day ∷ days) result w e d = elim (Bool-cases (is_empty day)) [
  | inl x ↦
      let rest : parse_from days result ≡ some w = ground arith in
      ground (arith, parse_from-contains days result w rest d)
  | inr x ↦ elim (Option-cases (parse_weekday day)) [
    | inl bad ↦ ground arith
    | inr (k, found) ↦
        let rest : parse_from days (set_bit result k) ≡ some w = ground arith in
        ground
          (arith, parse_from-contains days (set_bit result k) w rest d, contains-set_bit result k d)
  ]
]

-- If the texts parse, the set contains a day exactly if one of the texts that are not empty parses to
-- it.
pub parse_weekdays-contains :
    (days : List Text) (w : ℕ)
    → parse_weekdays days ≡ some w
    → (d : ℕ) → contains w d ≡ mentions days d
unfolding parse_weekdays
parse_weekdays-contains days w e d =
    ground (arith, parse_from-contains days 0 w e d, contains-zero d)

day_text-split :
    (i : ℕ) (a b : Bool) (s t : Text) → day_text i a ++ s ≡ day_text i b ++ t → (a ≡ b) × (s ≡ t)
day_text-split i true true s t e = (refl, ground arith)
day_text-split i false false s t e = (refl, ground arith)
day_text-split i true false s t e = absurd (ground arith)
day_text-split i false true s t e = absurd (ground arith)

string_from-contains :
    (n i w v : ℕ)
    → string_from n i w ≡ string_from n i v
    → (d : ℕ) → i ≤ d
    → d < i + n
    → contains w d ≡ contains v d
unfolding string_from
string_from-contains zero i w v e d low high = absurd (omega arith)
string_from-contains (suc n) i w v e d low high =
    let (here, rest) = day_text-split i (contains w i) (contains v i) _ _ e in
    elim (Bool-cases (i == d)) [
      | inl same ↦ let at : i ≡ d = ground arith in subst (λ x. contains w x ≡ contains v x) at here
      | inr other ↦ string_from-contains n (suc i) w v rest d (ground arith) (omega arith)
    ]

-- Two sets with the same text contain the same days.
pub string-contains :
    (w v : ℕ) → string w ≡ string v → (d : ℕ) → d < 7 → contains w d ≡ contains v d
unfolding string
string-contains w v e d high = string_from-contains 7 0 w v e d (omega arith) high
