-- ===== src/Travel/Clock/RoundTrip.antt =====
-- Parsing a formatted time.
use agentic_guide_system.Prelude.{ℕ, ◌*◌, ◌%◌, ◌/◌, ◌+◌, ◌<◌, ◌≡◌, ap, ◌∙◌, some, [], ◌∷◌, arith}
use agentic_guide_system.Travel.Clock.{
  parse_int, split_colon, hours_minutes, parse_hhmm, digit, two_digits, format_hhmm,
}

parse_int-two_digits : (n : ℕ) → n < 100 → parse_int (two_digits n) ≡ some n
unfolding parse_int two_digits
parse_int-two_digits n h = ground arith

split-two_digits :
    (h m : ℕ)
    → h < 100
    → m < 100
    → split_colon (digit (h / 10) ∷ digit (h % 10) ∷ b':' ∷ digit (m / 10) ∷ digit (m % 10) ∷ [])
      ≡ (two_digits h, two_digits m ∷ [])
unfolding split_colon two_digits
split-two_digits h m lt lt' = ground arith

read-two_digits :
    (h m : ℕ)
    → h < 100
    → m < 100
    → hours_minutes (two_digits h, two_digits m ∷ []) ≡ some (h * 60 + m)
unfolding hours_minutes
read-two_digits h m lt lt' = ground (arith, parse_int-two_digits h lt, parse_int-two_digits m lt')

parse-two_digits :
    (h m : ℕ)
    → h < 100
    → m < 100
    → parse_hhmm (digit (h / 10) ∷ digit (h % 10) ∷ b':' ∷ digit (m / 10) ∷ digit (m % 10) ∷ [])
      ≡ some (h * 60 + m)
unfolding parse_hhmm
parse-two_digits h m lt lt' =
    ap hours_minutes (split-two_digits h m lt lt') ∙ read-two_digits h m lt lt'

-- Parsing a formatted time gives the minute of the day.
pub parse_hhmm-format_hhmm :
    (total_min : ℕ) → parse_hhmm (format_hhmm total_min) ≡ some (total_min % 1440)
unfolding format_hhmm
parse_hhmm-format_hhmm t =
    parse-two_digits (t % 1440 / 60) (t % 1440 % 60) (omega arith) (omega arith)
    ∙ ap some (omega arith)
