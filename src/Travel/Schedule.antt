-- ===== src/Travel/Schedule.antt =====
-- src/travel_engine/schedule_builder.py: the start times of a day's stops.
pub mod Morning
pub mod Times
pub mod Runs
pub mod Build
pub mod Tests
use agentic_guide_system.Prelude.{
  ℕ, ◌+◌, String, Option, none, some, Bool, true, false, not, ◌&&◌, List, [], ◌∷◌, ◌++◌, map,
  length, keep, take, is_empty, leb, ltb, if◌then◌else◌,
}
use agentic_guide_system.Prelude.Dict.{Dict, get, pair_eq}
use agentic_guide_system.Prelude.Order.{codes}
use agentic_guide_system.Prelude.Result.{Result, ok, err, ◌>>=◌}
use agentic_guide_system.Travel.Clock.{parse_hhmm, format_hhmm}
use agentic_guide_system.Travel.Rules.{
  base_sentinel_id, day_start_time, lunch_break_min, lunch_break_start, visit_duration_min,
}
use agentic_guide_system.Travel.Places.{PlaceCandidate, ScoredPlace}
use agentic_guide_system.Travel.Days.{is_morning_only}
use agentic_guide_system.Travel.Routing.{RouteLeg, legs_to_lookup}
use agentic_guide_system.Travel.Route.{Lookup}

pub record ScheduledStop : Type 0 where
  pub place : PlaceCandidate
  pub score : ℕ
  pub visit_duration : ℕ
  pub suggested_start_time : List ℕ
  pub arrival_note : Option String

-- The messages of the `ValueError`s.
pub data ScheduleError : Type 0 where
  too_few_legs : ScheduleError
  missing_leg : ℕ → ℕ → ScheduleError

-- At most two morning-only stops go first, the other stops follow, further morning-only stops go.
unfoldable pub extract_morning_first : List ScoredPlace → List ScoredPlace
extract_morning_first stops =
    let morning = keep is_morning_only stops in
    if is_empty morning then stops else take 2 morning ++ keep (λ s. not (is_morning_only s)) stops

-- The hops from the stop reached last.
unfoldable pub hops_from : ℕ → List ScoredPlace → List (ℕ × ℕ)
hops_from from_id [] = []
hops_from from_id (s ∷ rest) = (from_id, s.place.id) ∷ hops_from s.place.id rest

unfoldable pub required_hops : List ScoredPlace → List (ℕ × ℕ)
unfolding hops_from
required_hops order = hops_from base_sentinel_id order

leg_minutes : ℕ → ℕ → Option RouteLeg → Result ScheduleError ℕ
leg_minutes from_id to_id none = err (missing_leg from_id to_id)
leg_minutes from_id to_id (some leg) = ok leg.duration_min

-- The loop that looks for a missing hop.
check_hops : Lookup → List (ℕ × ℕ) → Result ScheduleError (Unit {0})
unfolding leg_minutes
check_hops lookup [] = ok tt
check_hops lookup (hop ∷ hops) = do
  _ ← leg_minutes hop.0 hop.1 (get lookup hop)
  check_hops lookup hops

pub hop_duration : Lookup → ℕ → ℕ → Result ScheduleError ℕ
unfolding leg_minutes
hop_duration lookup from_id to_id = leg_minutes from_id to_id (get lookup (from_id, to_id))

abbrev or_zero : Option ℕ → ℕ
or_zero none = 0
or_zero (some n) = n

-- `_parse_hhmm` of the two constants, which parse.
abbrev pub lunch_start : ℕ
unfolding parse_hhmm
lunch_start = or_zero (parse_hhmm (codes lunch_break_start))

abbrev pub day_start : ℕ
unfolding parse_hhmm
day_start = or_zero (parse_hhmm (codes day_start_time))

-- The variables of the loop: `clock` and `lunch_taken`.
pub record LoopState : Type 0 where
  pub clock : ℕ
  pub lunch_taken : Bool

-- The lunch gap before a visit that would cross lunch or starts after it, and its note.
unfoldable pub before_visit : LoopState → ℕ → LoopState × Option String
before_visit st visit =
    if not st.lunch_taken && (ltb st.clock lunch_start && ltb lunch_start (st.clock + visit))
    then (
      record { clock = lunch_start + lunch_break_min; lunch_taken = true },
      some "lunch break before visit",
    )
    else if not st.lunch_taken && leb lunch_start st.clock
    then (
      record { clock = st.clock + lunch_break_min; lunch_taken = true },
      some "lunch break before visit",
    )
    else (st, none)

-- The travel after a visit: lunch is taken where the way crosses it.
unfoldable pub after_visit : LoopState → ℕ → LoopState
after_visit st travel =
    if not st.lunch_taken && (ltb st.clock lunch_start && leb lunch_start (st.clock + travel))
    then record { clock = lunch_start + lunch_break_min; lunch_taken = true }
    else record st { clock = st.clock + travel }

-- One iteration's start, before it is formatted.
pub record Timed : Type 0 where
  pub scored : ScoredPlace
  pub visit : ℕ
  pub start : ℕ
  pub note : Option String

unfoldable pub to_stop : Timed → ScheduledStop
to_stop t = record {
  place = t.scored.place;
  score = t.scored.score;
  visit_duration = t.visit;
  suggested_start_time = format_hhmm t.start;
  arrival_note = t.note;
}

-- The state after the visit of one iteration, and the iteration's start.
pub visit_stop : LoopState → ScoredPlace → Timed × LoopState
unfolding before_visit
visit_stop st s =
    let visit = visit_duration_min s.place.category in
    let (at, note) = before_visit st visit in
    (
      record { scored = s; visit = visit; start = at.clock; note = note },
      record at { clock = at.clock + visit },
    )

-- The `for` loop.
pub time_stops : Lookup → LoopState → List ScoredPlace → Result ScheduleError (List Timed)
unfolding visit_stop after_visit hop_duration
time_stops lookup st [] = ok []
time_stops lookup st (s ∷ []) = ok ((visit_stop st s).0 ∷ [])
time_stops lookup st (s ∷ next ∷ rest) = do
  let (timed, left) = visit_stop st s
  travel ← hop_duration lookup s.place.id next.place.id
  more ← time_stops lookup (after_visit left travel) (next ∷ rest)
  ok (timed ∷ more)

-- The times of an order: travel from the base, then the loop.
time_day : Lookup → List ScoredPlace → Result ScheduleError (List Timed)
unfolding time_stops hop_duration
time_day lookup [] = ok []
time_day lookup (s ∷ rest) = do
  travel ← hop_duration lookup base_sentinel_id s.place.id
  time_stops lookup (record { clock = day_start + travel; lunch_taken = false }) (s ∷ rest)

unfoldable pub build_day_schedule :
    List ScoredPlace → List RouteLeg → Bool → Result ScheduleError (List ScheduledStop)
unfolding time_day check_hops required_hops to_stop
build_day_schedule [] route_legs preserve_order = ok []
build_day_schedule (s ∷ rest) route_legs preserve_order =
    if ltb (length route_legs) (length (s ∷ rest)) then err too_few_legs else do
      let lookup = legs_to_lookup route_legs
      let order = if preserve_order then s ∷ rest else extract_morning_first (s ∷ rest)
      _ ← check_hops lookup (required_hops order)
      timed ← time_day lookup order
      ok (map to_stop timed)
