-- ===== src/Travel/Clock/Tests.antt =====
-- A time after midnight wraps around.
use agentic_guide_system.Prelude.{◌≡◌, refl, some}
use agentic_guide_system.Prelude.Order.{codes}
use agentic_guide_system.Travel.Clock.{parse_hhmm, format_hhmm}
use agentic_guide_system.Travel.Clock.RoundTrip.{parse_hhmm-format_hhmm}

format_hhmm_morning : format_hhmm 485 ≡ codes "08:05"
unfolding format_hhmm
format_hhmm_morning = refl

parse_hhmm-format_hhmm_example : parse_hhmm (format_hhmm 1500) ≡ some 60
parse_hhmm-format_hhmm_example = parse_hhmm-format_hhmm 1500
