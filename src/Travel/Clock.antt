-- ===== src/Travel/Clock.antt =====
-- `_parse_hhmm` and `_format_hhmm` of src/travel_engine/schedule_builder.py: wall-clock times
-- "HH:MM" as lists of character codes, and minutes since midnight.
pub mod RoundTrip
pub mod Tests
use agentic_guide_system.Prelude.{
  ℕ, ◌+◌, ◌-◌, ◌*◌, ◌/◌, ◌%◌, Option, none, some, Bool, true, false, ◌&&◌, List, [], ◌∷◌, ◌++◌, leb,
  ltb, ◌==◌, if◌then◌else◌,
}

abbrev is_digit : ℕ → Bool
is_digit c = leb b'0' c && leb c b'9'

digits_from : ℕ → List ℕ → Option ℕ
digits_from n [] = some n
digits_from n (c ∷ cs) =
    let rest = digits_from (n * 10 + (c - b'0')) cs in if is_digit c then rest else none

-- `int(text)` on decimal digits; signs, spaces and `_` do not occur in a time of day.
unfoldable pub parse_int : List ℕ → Option ℕ
unfolding digits_from
parse_int [] = none
parse_int (c ∷ cs) = digits_from 0 (c ∷ cs)

-- `text.split(":")`: the text up to the first colon, and the pieces after it.
unfoldable pub split_colon : List ℕ → List ℕ × List (List ℕ)
split_colon [] = ([], [])
split_colon (c ∷ cs) =
    let (first, more) = split_colon cs in
    if c == b':' then ([], first ∷ more) else (c ∷ first, more)

-- `hours, minutes = …` wants two pieces; `none` is the `ValueError`.
unfoldable pub hours_minutes : List ℕ × List (List ℕ) → Option ℕ
unfolding parse_int
hours_minutes (hours, minutes ∷ []) = elim (parse_int hours) [
  | none ↦ none
  | some h ↦ elim (parse_int minutes) [ none ↦ none | some m ↦ some (h * 60 + m) ]
]
hours_minutes (hours, _) = none

unfoldable pub parse_hhmm : List ℕ → Option ℕ
unfolding split_colon hours_minutes
parse_hhmm value = hours_minutes (split_colon value)

digit : ℕ → ℕ
digit n = n + b'0'

-- `f"{n:02d}"` for a number below 100.
two_digits : ℕ → List ℕ
unfolding digit
two_digits n = digit (n / 10) ∷ digit (n % 10) ∷ []

-- `max(0, total_min)` is `total_min`: a clock is never negative.
unfoldable pub format_hhmm : ℕ → List ℕ
unfolding two_digits
format_hhmm total_min =
    two_digits (total_min % (24 * 60) / 60) ++ b':' ∷ two_digits (total_min % (24 * 60) % 60)
