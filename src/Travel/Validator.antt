-- ===== src/Travel/Validator.antt =====
-- src/travel_engine/trip_validator.py: the checks of a whole itinerary. An error message is a
-- constructor with the values that it prints. The float dispersion of a day's coordinates
-- (`_day_coord_stddev_km`, here in metres) is a parameter.
pub mod Repeats
pub mod Slots
pub mod Verdict
pub mod Tests
use agentic_guide_system.Prelude.{
  ℕ, suc, ◌+◌, String, Option, none, some, Bool, true, false, not, ◌||◌, List, [], ◌∷◌, ◌++◌, any,
  length, is_empty, ltb, if◌then◌else◌,
}
use agentic_guide_system.Prelude.Dict.{Dict, get, put, nat_eq}
use agentic_guide_system.Prelude.Order.{codes}
use agentic_guide_system.Travel.Clock.{parse_hhmm}
use agentic_guide_system.Travel.Rules.{
  anchor_min_score, geo_coherence_max_stddev_m, max_daily_travel_min, morning_only_categories,
  morning_slot_latest_start,
}
use agentic_guide_system.Travel.Places.{contains}
use agentic_guide_system.Travel.Route.{DroppedStop}
use agentic_guide_system.Travel.Schedule.{ScheduledStop}

pub data ValidationError : Type 0 where
  empty_itinerary : ValidationError
  daily_travel_cap : ℕ → ℕ → ValidationError
  repeated_place : ℕ → Option String → ℕ → ValidationError
  morning_slot_violation : ℕ → String → ℕ → List ℕ → ValidationError
  no_anchor : ℕ → ValidationError
  geo_coherence : ℕ → ℕ → ValidationError

pub data ValidationWarning : Type 0 where
  dropped_stops_warning : ValidationWarning

pub record ValidationResult : Type 0 where
  pub passed : Bool
  pub warnings : List ValidationWarning
  pub errors : List ValidationError

pub record DayPlan : Type 0 where
  pub stops : List ScheduledStop
  pub total_travel_min : ℕ
  pub dropped_stops : List DroppedStop

pub record TripItinerary : Type 0 where
  pub days : List DayPlan

-- `for i, day in enumerate(days)` with errors for each day.
unfoldable pub each_day :
    (ℕ → DayPlan → List ValidationError) → ℕ → List DayPlan → List ValidationError
each_day f i [] = []
each_day f i (day ∷ days) = f i day ++ each_day f (suc i) days

travel_errors : ℕ → DayPlan → List ValidationError
travel_errors i day =
    if ltb max_daily_travel_min day.total_travel_min
    then daily_travel_cap i day.total_travel_min ∷ []
    else []

unfoldable pub check_daily_travel_cap : TripItinerary → List ValidationError
unfolding each_day travel_errors
check_daily_travel_cap itinerary = each_day travel_errors 0 itinerary.days

abbrev count_or_zero : Option ℕ → ℕ
count_or_zero none = 0
count_or_zero (some n) = n

-- `counts[pid] += 1` and `names[pid] = name`, over the stops of a day and of all days.
count_stops : Dict ℕ ℕ → List ScheduledStop → Dict ℕ ℕ
count_stops counts [] = counts
count_stops counts (stop ∷ stops) =
    count_stops (put counts stop.place.id (count_or_zero (get counts stop.place.id) + 1)) stops

count_days : Dict ℕ ℕ → List DayPlan → Dict ℕ ℕ
unfolding count_stops
count_days counts [] = counts
count_days counts (day ∷ days) = count_days (count_stops counts day.stops) days

name_stops : Dict ℕ String → List ScheduledStop → Dict ℕ String
name_stops names [] = names
name_stops names (stop ∷ stops) = name_stops (put names stop.place.id stop.place.name) stops

name_days : Dict ℕ String → List DayPlan → Dict ℕ String
unfolding name_stops
name_days names [] = names
name_days names (day ∷ days) = name_days (name_stops names day.stops) days

repeat_errors : Dict ℕ String → Dict ℕ ℕ → List ValidationError
repeat_errors names [] = []
repeat_errors names ((pid, count) ∷ counts) =
    (if ltb 1 count then repeated_place pid (get names pid) count ∷ [] else [])
    ++ repeat_errors names counts

unfoldable pub check_no_repeat_places : TripItinerary → List ValidationError
unfolding count_days name_days repeat_errors
check_no_repeat_places itinerary =
    repeat_errors (name_days [] itinerary.days) (count_days [] itinerary.days)

-- `_parse_hhmm` of the constant, which parses.
abbrev pub latest_morning_start : ℕ
unfolding parse_hhmm
latest_morning_start = count_or_zero (parse_hhmm (codes morning_slot_latest_start))

-- `none` is the `ValueError` of a start time that does not parse.
slot_error : ℕ → ℕ → ScheduledStop → Option ℕ → Option (List ValidationError)
slot_error day_i slot stop none = none
slot_error day_i slot stop (some start_min) = some (
    if ltb 2 slot || ltb latest_morning_start start_min
    then morning_slot_violation day_i stop.place.name slot stop.suggested_start_time ∷ []
    else [])

-- One stop of the inner loop; `slot` is its 1-based order.
stop_errors : ℕ → ℕ → ScheduledStop → Option (List ValidationError)
unfolding slot_error
stop_errors day_i slot stop =
    if not (contains morning_only_categories stop.place.category)
    then some []
    else slot_error day_i slot stop (parse_hhmm stop.suggested_start_time)

-- The errors of two parts, unless one raises.
abbrev join :
    Option (List ValidationError) → Option (List ValidationError) → Option (List ValidationError)
join none b = none
join (some xs) none = none
join (some xs) (some ys) = some (xs ++ ys)

slots_from : ℕ → ℕ → List ScheduledStop → Option (List ValidationError)
unfolding stop_errors
slots_from day_i slot [] = some []
slots_from day_i slot (stop ∷ stops) =
    join (stop_errors day_i slot stop) (slots_from day_i (suc slot) stops)

days_slots : ℕ → List DayPlan → Option (List ValidationError)
unfolding slots_from
days_slots i [] = some []
days_slots i (day ∷ days) = join (slots_from i 1 day.stops) (days_slots (suc i) days)

unfoldable pub check_morning_slots : TripItinerary → Option (List ValidationError)
unfolding days_slots
check_morning_slots itinerary = days_slots 0 itinerary.days

unfoldable pub has_anchor : DayPlan → Bool
has_anchor day = any (λ s. ltb anchor_min_score s.score) day.stops

anchor_errors : ℕ → DayPlan → List ValidationError
anchor_errors i day = if not (has_anchor day) then no_anchor i ∷ [] else []

unfoldable pub check_anchor_per_day : TripItinerary → List ValidationError
unfolding each_day anchor_errors
check_anchor_per_day itinerary = each_day anchor_errors 0 itinerary.days

abbrev pub with_warnings : TripItinerary → Option (List ValidationError) → Option ValidationResult
with_warnings itinerary none = none
with_warnings itinerary (some errors) = some (record {
  passed = is_empty errors;
  warnings =
      if any (λ d. not (is_empty d.dropped_stops)) itinerary.days
      then dropped_stops_warning ∷ []
      else [];
  errors = errors;
})

module _ (day_coord_stddev_m : List ScheduledStop → ℕ) where
  geo_errors : ℕ → DayPlan → List ValidationError
  geo_errors i day =
      if ltb (length day.stops) 2
      then []
      else if ltb geo_coherence_max_stddev_m (day_coord_stddev_m day.stops)
      then geo_coherence i (day_coord_stddev_m day.stops) ∷ []
      else []

  unfoldable pub check_geo_coherence : TripItinerary → List ValidationError
  unfolding each_day geo_errors
  check_geo_coherence itinerary = each_day geo_errors 0 itinerary.days

  -- The errors of the five checks in order, unless the third raises.
  all_errors : TripItinerary → Option (List ValidationError)
  all_errors itinerary =
      join (some (check_daily_travel_cap itinerary ++ check_no_repeat_places itinerary)) (
        join (check_morning_slots itinerary)
          (some (check_anchor_per_day itinerary ++ check_geo_coherence itinerary)))

  -- `none` is the `ValueError` of a start time.
  unfoldable pub validate_trip : TripItinerary → Option ValidationResult
  unfolding all_errors
  validate_trip itinerary =
      if is_empty itinerary.days
      then some (record { passed = false; warnings = []; errors = empty_itinerary ∷ [] })
      else with_warnings itinerary (all_errors itinerary)
