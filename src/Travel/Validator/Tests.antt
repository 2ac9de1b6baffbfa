-- ===== src/Travel/Validator/Tests.antt =====
-- A valid itinerary, and one that repeats a place.
use agentic_guide_system.Prelude.{ℕ, ◌≡◌, ◌↔◌, refl, true, false, none, some, List, [], ◌∷◌, String}
use agentic_guide_system.Prelude.Dict.{get, put}
use agentic_guide_system.Prelude.Order.{codes}
use agentic_guide_system.Travel.Clock.{parse_hhmm}
use agentic_guide_system.Travel.Samples.{viewpoint, monastery}
use agentic_guide_system.Travel.Places.{PlaceCandidate}
use agentic_guide_system.Travel.Schedule.{ScheduledStop}
use agentic_guide_system.Travel.Validator.{
  DayPlan, TripItinerary, repeated_place, validate_trip, check_morning_slots,
  check_daily_travel_cap, check_no_repeat_places, check_anchor_per_day, has_anchor,
  check_geo_coherence,
}
use agentic_guide_system.Travel.Validator.Verdict.{IsValidTrip, Passes, validate_trip-Passes}

abbrev stop_of : PlaceCandidate → String → ScheduledStop
stop_of place time = record {
  place = place;
  score = 14;
  visit_duration = 20;
  suggested_start_time = codes time;
  arrival_note = none;
}

abbrev day_of : List ScheduledStop → DayPlan
day_of stops = record { stops = stops; total_travel_min = 120; dropped_stops = [] }

abbrev trip : TripItinerary
trip = record { days = day_of (stop_of viewpoint "09:20" ∷ stop_of monastery "10:20" ∷ []) ∷ [] }

abbrev repeating_trip : TripItinerary
repeating_trip = record {
  days =
      day_of (stop_of viewpoint "09:20" ∷ stop_of monastery "10:20" ∷ [])
      ∷ day_of (stop_of monastery "09:00" ∷ [])
      ∷ [];
}

abbrev spread : List ScheduledStop → ℕ
spread stops = 1500

validate_trip-trip :
    validate_trip spread trip ≡ some (record { passed = true; warnings = []; errors = [] })
unfolding validate_trip check_morning_slots parse_hhmm check_daily_travel_cap check_no_repeat_places
    put get check_anchor_per_day has_anchor check_geo_coherence
validate_trip-trip = refl

validate_trip_repeating :
    validate_trip spread repeating_trip
    ≡ some
        (record { passed = false; warnings = []; errors = repeated_place 1 (some "Rumtek") 2 ∷ [] })
unfolding validate_trip check_morning_slots parse_hhmm check_daily_travel_cap check_no_repeat_places
    put get check_anchor_per_day has_anchor check_geo_coherence
validate_trip_repeating = refl

validate_trip-Passes_example : Passes spread trip ↔ IsValidTrip spread trip
validate_trip-Passes_example = validate_trip-Passes spread trip
