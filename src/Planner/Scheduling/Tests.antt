-- ===== src/Planner/Scheduling/Tests.antt =====
-- The record of a day of three stops.
use agentic_guide_system.Prelude.{◌≡◌, ◌≢◌, refl, false, none, some, [], ◌∷◌}
use agentic_guide_system.Prelude.Dict.{get}
use agentic_guide_system.Travel.Samples.{stops}
use agentic_guide_system.Travel.Routing.{legs_to_lookup}
use agentic_guide_system.Travel.Route.{day_waypoints, score_order}
use agentic_guide_system.Travel.Schedule.Tests.{legs, schedule, build_day_schedule_stops}
use agentic_guide_system.Travel.Schedule.Build.{timed_order}
use agentic_guide_system.Planner.Schemas.{RouteDay}
use agentic_guide_system.Planner.Scheduling.{day_dict}
use agentic_guide_system.Planner.Scheduling.Days.{minutes, day_dict-minutes}

abbrev day : RouteDay
day = record {
  ordered = stops;
  legs = legs;
  total_travel_min = 120;
  dropped_stops = [];
  still_over_budget = false;
  leg_polylines = some "a" ∷ some "b" ∷ some "c" ∷ [];
  day_polyline = none;
}

has_stops : day.ordered ≢ []
has_stops e = cc

-- The record's travel, of the order that is timed, is over what the route's day tells.
travel_of_day : minutes (day_dict 1 day schedule).stops ≡ 200
unfolding day_dict legs_to_lookup get day_waypoints
travel_of_day = refl

day_dict-minutes_example :
    minutes (day_dict 1 day schedule).stops
    ≡ score_order (timed_order day.ordered false) (legs_to_lookup day.legs)
day_dict-minutes_example = day_dict-minutes 1 day build_day_schedule_stops has_stops
