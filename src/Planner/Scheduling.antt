-- ===== src/Planner/Scheduling.antt =====
-- src/planner/tools/build_schedule.py: the tool that times each day of the route, and the day's record
-- that it writes. Distances are metres and are not rounded.
pub mod Days
pub mod Tests
use agentic_guide_system.Prelude.{
  ℕ, zero, suc, ◌+◌, String, Option, none, some, Bool, true, false, not, List, [], ◌∷◌, ◌++◌, map,
  is_empty, if◌then◌else◌,
}
use agentic_guide_system.Prelude.Dict.{Dict, get, put, nat_eq, pair_eq}
use agentic_guide_system.Prelude.Int.{ℤ}
use agentic_guide_system.Prelude.Result.{Result, ok, err}
use agentic_guide_system.Travel.Rules.{base_sentinel_id}
use agentic_guide_system.Travel.Places.{ScoredPlace}
use agentic_guide_system.Travel.Days.{Geometry}
use agentic_guide_system.Travel.Routing.{RouteLeg, RoutingProvider, legs_to_lookup}
use agentic_guide_system.Travel.Route.{Lookup}
use agentic_guide_system.Travel.Schedule.{ScheduledStop, ScheduleError, build_day_schedule}
use agentic_guide_system.Planner.Schemas.{RouteDay, FlatStop, ScheduleDay, Entry, ToolResult}
use agentic_guide_system.Planner.State.{TravelState}
use agentic_guide_system.Planner.Tools.{build_route}

-- `_polyline_by_place`: the polyline of each place, where an index past the end has none.
unfoldable pub polyline_by_place :
    Dict ℕ (Option String) → List ScoredPlace → List (Option String) → Dict ℕ (Option String)
polyline_by_place out [] polylines = out
polyline_by_place out (s ∷ rest) [] = polyline_by_place (put out s.place.id none) rest []
polyline_by_place out (s ∷ rest) (p ∷ polylines) =
    polyline_by_place (put out s.place.id p) rest polylines

abbrev minutes_of : Option RouteLeg → ℕ
minutes_of none = 0
minutes_of (some leg) = leg.duration_min

abbrev metres_of : Option RouteLeg → ℕ
metres_of none = 0
metres_of (some leg) = leg.distance_m

unfoldable pub hop_travel_min : Lookup → ℕ → ℕ → ℕ
hop_travel_min lookup from_id to_id = minutes_of (get lookup (from_id, to_id))

unfoldable pub hop_distance_m : Lookup → ℕ → ℕ → ℕ
hop_distance_m lookup from_id to_id = metres_of (get lookup (from_id, to_id))

abbrev flatten : Option (Option String) → Option String
flatten none = none
flatten (some p) = p

unfoldable pub flat_stop : ScheduledStop → ℕ → ℕ → Option String → FlatStop
flat_stop scheduled order travel_time_min leg_polyline = record {
  place = scheduled.place;
  order = order;
  travel_time_min = travel_time_min;
  visit_duration_min = scheduled.visit_duration;
  suggested_start_time = scheduled.suggested_start_time;
  arrival_note = scheduled.arrival_note;
  leg_polyline = leg_polyline;
  score = scheduled.score;
}

-- The loop over the scheduled stops, from the place before and the number of the next stop.
unfoldable pub flat_stops :
    Lookup → Dict ℕ (Option String) → ℕ → ℕ → List ScheduledStop → List FlatStop
unfolding hop_travel_min flat_stop
flat_stops lookup polylines previous order [] = []
flat_stops lookup polylines previous order (s ∷ rest) =
    flat_stop s order (hop_travel_min lookup previous s.place.id)
      (flatten (get polylines s.place.id))
    ∷ flat_stops lookup polylines s.place.id (suc order) rest

unfoldable pub distance_from : Lookup → ℕ → List ScheduledStop → ℕ
unfolding hop_distance_m
distance_from lookup previous [] = 0
distance_from lookup previous (s ∷ rest) =
    hop_distance_m lookup previous s.place.id + distance_from lookup s.place.id rest

unfoldable pub day_dict : ℕ → RouteDay → List ScheduledStop → ScheduleDay
unfolding polyline_by_place flat_stops distance_from legs_to_lookup
day_dict day_num day scheduled =
    let lookup = legs_to_lookup day.legs in
    record {
      day = day_num;
      stops =
          flat_stops lookup (polyline_by_place [] day.ordered day.leg_polylines) base_sentinel_id 1
            scheduled;
      total_distance_m = distance_from lookup base_sentinel_id scheduled;
      total_travel_min = day.total_travel_min;
      day_polyline = day.day_polyline;
    }

-- One day's schedule before the others, unless one raises.
schedule_day :
    ℕ
    → RouteDay
    → Result ScheduleError (List ScheduledStop)
    → Option (List ScheduleDay)
    → Option (List ScheduleDay)
unfolding day_dict
schedule_day day_num day (err e) rest = none
schedule_day day_num day (ok scheduled) none = none
schedule_day day_num day (ok scheduled) (some rest) = some (day_dict day_num day scheduled ∷ rest)

-- The loop over the days of the route.
unfoldable pub schedule_days : ℕ → List RouteDay → Option (List ScheduleDay)
unfolding schedule_day
schedule_days day_num [] = some []
schedule_days day_num (day ∷ days) =
    schedule_day day_num day (build_day_schedule day.ordered day.legs false)
      (schedule_days (suc day_num) days)

-- The result for a working state that has a route.
scheduled_result :
    List RouteDay → List ScoredPlace → Bool → Option (List ScheduleDay) → Option ToolResult
scheduled_result route ranked fallback none = none
scheduled_result route ranked fallback (some schedule) = some (record {
  ok = true;
  code = none;
  payload = some (
      Entry.schedule schedule
      ∷ Entry.route route
      ∷ Entry.ranked_pois ranked
      ∷ Entry.used_osrm_fallback fallback
      ∷ []);
  fallback_used = false;
})

-- The value of a key in a result's data, or what the working state has.
route_in : List RouteDay → List Entry → List RouteDay
route_in route [] = route
route_in route (Entry.route v ∷ es) = route_in v es
route_in route (e ∷ es) = route_in route es

ranked_in : List ScoredPlace → List Entry → List ScoredPlace
ranked_in ranked [] = ranked
ranked_in ranked (Entry.ranked_pois v ∷ es) = ranked_in v es
ranked_in ranked (e ∷ es) = ranked_in ranked es

fallback_in : Bool → List Entry → Bool
fallback_in fallback [] = fallback
fallback_in fallback (Entry.used_osrm_fallback v ∷ es) = fallback_in v es
fallback_in fallback (e ∷ es) = fallback_in fallback es

abbrev pub code_or : Option String → String → Option String
code_or none code = some code
code_or (some c) code = some c

abbrev data_of : Option (List Entry) → List Entry
data_of none = []
data_of (some es) = es

-- The rest of the tool after build_route was run for a state without a route.
after_build : TravelState → Option ToolResult → Option ToolResult
unfolding route_in ranked_in fallback_in scheduled_result schedule_days
after_build st none = none
after_build st (some result) =
    let route = route_in [] (data_of result.payload) in
    if not result.ok
    then some (record result { ok = false; code = code_or result.code "precondition_failed" })
    else if is_empty route
    then some (record {
      ok = false;
      code = some "empty_route";
      payload = result.payload;
      fallback_used = false;
    })
    else scheduled_result route (ranked_in st.ranked_pois (data_of result.payload))
        (fallback_in st.used_osrm_fallback (data_of result.payload)) (schedule_days 1 route)

-- build_schedule.run. `none` is a ValueError that is raised.
unfoldable pub build_schedule :
    Geometry
    → Option RoutingProvider
    → Option (ℤ × ℤ)
    → List String
    → TravelState
    → Option ToolResult
unfolding after_build scheduled_result schedule_days
build_schedule geo routing base raw_words st =
    if is_empty st.route
    then after_build st (build_route geo routing base raw_words st)
    else scheduled_result st.route st.ranked_pois st.used_osrm_fallback (schedule_days 1 st.route)
