-- ===== src/Planner/Tools.antt =====
-- src/planner/tools: the tools that read the state and call the travel engine alone. The result of a
-- tool is written by apply_tool_result, so a tool is a function from the state to a result. Its
-- arguments have been parsed already.
pub mod Plans
pub mod Results
pub mod Tests
use agentic_guide_system.Prelude.{
  ℕ, zero, suc, ◌+◌, String, Option, none, some, Bool, true, false, not, ◌&&◌, ◌||◌, List, [], ◌∷◌,
  ◌++◌, map, any, length, is_empty, str_eq, leb, ltb, if◌then◌else◌,
}
use agentic_guide_system.Prelude.Int.{ℤ, pos}
use agentic_guide_system.Prelude.Order.{codes}
use agentic_guide_system.Travel.Places.{PlaceCandidate, TripPreferences, ScoredPlace, select_places}
use agentic_guide_system.Travel.Days.{Geometry, allocate_days}
use agentic_guide_system.Travel.Routing.{RoutingProvider}
use agentic_guide_system.Travel.Route.{OptimizeResult, DroppedStop, optimize_route}
use agentic_guide_system.Travel.Schedule.{ScheduledStop}
use agentic_guide_system.Travel.Validator.{
  ValidationResult, ValidationWarning, dropped_stops_warning, DayPlan, TripItinerary, validate_trip,
}
use agentic_guide_system.Planner.Schemas.{
  RouteDay, FlatStop, ScheduleDay, Itinerary, Entry, ToolResult,
}
use agentic_guide_system.Planner.State.{TravelState}
use agentic_guide_system.Planner.Terminal.{default_clarification}

abbrev pub succeeds : List Entry → ToolResult
succeeds entries = record { ok = true; code = none; payload = some entries; fallback_used = false }

abbrev pub fails : String → ToolResult
fails code = record { ok = false; code = some code; payload = none; fallback_used = false }

-- `days or 3`
abbrev pub days_or_three : ℕ → ℕ
days_or_three zero = 3
days_or_three (suc n) = suc n

-- `preferences_from_state`, for a state without `preferences`; the words of the raw input, which stand
-- for interests where there are none, are an argument.
unfoldable pub preferences_from_state : List String → TravelState → TripPreferences
preferences_from_state raw_words st = record {
  interests = if is_empty st.interests then raw_words else st.interests;
  budget = st.budget;
  days = pos (days_or_three st.days);
}

-- rank_places.run; the explanations are a key that nothing reads again.
unfoldable pub rank_places : List String → TravelState → ToolResult
rank_places raw_words st = succeeds (
    Entry.ranked_pois (select_places st.candidate_pois (preferences_from_state raw_words st))
    ∷ Entry.other "explanations"
    ∷ [])

-- The ranked places, or the candidates ranked now.
unfoldable pub places_to_route : List String → TravelState → List ScoredPlace
places_to_route raw_words st =
    if is_empty st.ranked_pois
    then select_places st.candidate_pois (preferences_from_state raw_words st)
    else st.ranked_pois

unfoldable pub route_day : OptimizeResult → RouteDay
route_day result = record {
  ordered = result.ordered;
  legs = result.legs;
  total_travel_min = result.total_travel_min;
  dropped_stops = result.dropped_stops;
  still_over_budget = result.still_over_budget;
  leg_polylines = result.leg_polylines;
  day_polyline = result.day_polyline;
}

unfoldable pub uses_fallback : List RouteDay → Bool
uses_fallback days = any (λ day. any (λ leg. leg.used_fallback) day.legs) days

-- The loop over the allocated days.
unfoldable pub route_days : RoutingProvider → ℤ × ℤ → List (List ScoredPlace) → List RouteDay
unfolding route_day optimize_route
route_days routing (base_lat, base_lng) days =
    map (λ day. route_day (optimize_route base_lat base_lng routing day)) days

unfoldable pub built : List ScoredPlace → List RouteDay → ToolResult
unfolding uses_fallback
built ranked route = record {
  ok = true;
  code = none;
  payload = some (
      Entry.route route
      ∷ Entry.ranked_pois ranked
      ∷ Entry.other "dropped_stops"
      ∷ Entry.used_osrm_fallback (uses_fallback route)
      ∷ []);
  fallback_used = uses_fallback route;
}

unfoldable pub build_allocated :
    RoutingProvider
    → ℤ × ℤ
    → List ScoredPlace
    → Option (List (List ScoredPlace))
    → Option ToolResult
build_allocated routing base ranked none = none
build_allocated routing base ranked (some days) = some (built ranked (route_days routing base days))

-- build_route.run, for the context's routing provider and the base coordinates of the context or the
-- state. `none` is the ValueError of allocate_days.
unfoldable pub build_route :
    Geometry
    → Option RoutingProvider
    → Option (ℤ × ℤ)
    → List String
    → TravelState
    → Option ToolResult
build_route geo none base raw_words st = some (fails "precondition_failed")
build_route geo (some routing) none raw_words st = some (fails "precondition_failed")
build_route geo (some routing) (some base) raw_words st =
    let ranked = places_to_route raw_words st in
    if is_empty ranked
    then some (fails "no_ranked_places")
    else build_allocated routing base ranked
        (allocate_days geo ranked (preferences_from_state raw_words st).days)

-- `_scheduled_from_flat`, on a stop that build_schedule wrote.
unfoldable pub scheduled_from_flat : FlatStop → ScheduledStop
scheduled_from_flat stop = record {
  place = record stop.place {
    category = if str_eq stop.place.category "" then "attraction" else stop.place.category;
    enriched_tags = [];
  };
  score = stop.score;
  visit_duration = if leb stop.visit_duration_min 0 then 60 else stop.visit_duration_min;
  suggested_start_time =
      if is_empty stop.suggested_start_time then codes "09:00" else stop.suggested_start_time;
  arrival_note = stop.arrival_note;
}

-- `_day_plan`: the minutes of the schedule's day, or those of the route's where these are 0.
abbrev pub travel_or : ℕ → ℕ → ℕ
travel_or zero n = n
travel_or (suc k) n = suc k

unfoldable pub day_plan : List FlatStop → ℕ → ℕ → List DroppedStop → DayPlan
unfolding scheduled_from_flat
day_plan stops scheduled_min routed_min dropped = record {
  stops = map scheduled_from_flat stops;
  total_travel_min = travel_or scheduled_min routed_min;
  dropped_stops = dropped;
}

-- The loop over `range(max(len(schedule), len(route)))`.
unfoldable pub day_plans : List ScheduleDay → List RouteDay → List DayPlan
unfolding day_plan
day_plans [] [] = []
day_plans [] (r ∷ route) = day_plan [] 0 r.total_travel_min r.dropped_stops ∷ day_plans [] route
day_plans (s ∷ schedule) [] = day_plan s.stops s.total_travel_min 0 [] ∷ day_plans schedule []
day_plans (s ∷ schedule) (r ∷ route) =
    day_plan s.stops s.total_travel_min r.total_travel_min r.dropped_stops
    ∷ day_plans schedule route

abbrev warning_text : ValidationWarning → String
warning_text dropped_stops_warning =
    "one_or_more_days_already_dropped_stops_prefer_expand_poi_search"

unfoldable pub validation_outcome : ValidationResult → ToolResult
validation_outcome result = record {
  ok = result.passed;
  code = if result.passed then none else some "validation_failed";
  payload = some (
      Entry.validation_result result
      ∷ Entry.last_validate_ok result.passed
      ∷ Entry.errors result.errors
      ∷ Entry.warnings (map warning_text result.warnings)
      ∷ []);
  fallback_used = false;
}

abbrev outcome_of : Option ValidationResult → Option ToolResult
outcome_of none = none
outcome_of (some result) = some (validation_outcome result)

-- validate_itinerary.run, where an itinerary without days takes the same way. `none` is the ValueError
-- of a start time.
unfoldable pub validate_itinerary : (List ScheduledStop → ℕ) → TravelState → Option ToolResult
unfolding day_plans validation_outcome validate_trip
validate_itinerary day_coord_stddev_m st =
    outcome_of (validate_trip day_coord_stddev_m (record { days = day_plans st.schedule st.route }))

unfoldable pub accept_partial : ToolResult
accept_partial = succeeds (Entry.abort_triggered true ∷ [])

abbrev length_or : ℕ → ℕ → ℕ
length_or zero n = n
length_or (suc k) n = suc k

unfoldable pub finish_plan : TravelState → ToolResult
finish_plan st = succeeds (
    Entry.plan_complete true
    ∷ Entry.itinerary (record {
      schedule = st.schedule;
      route = st.route;
      days = length_or (length st.schedule) (length st.route);
    })
    ∷ [])

-- ask_clarification.run, on the question without white space around it.
unfoldable pub ask_clarification : String → ToolResult
ask_clarification question = succeeds (
    Entry.needs_clarification true
    ∷ Entry.clarification_question (if str_eq question "" then default_clarification else question)
    ∷ [])
