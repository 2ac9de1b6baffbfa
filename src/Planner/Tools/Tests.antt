-- ===== src/Planner/Tools/Tests.antt =====
-- The tools on three places of two days.
use agentic_guide_system.Prelude.{
  ℕ, ◌≡◌, ◌↔◌, refl, true, false, some, List, [], length, is_empty, All,
}
use agentic_guide_system.Prelude.Int.{pos}
use agentic_guide_system.Travel.Samples.{geometry, routing, stops}
use agentic_guide_system.Travel.Schedule.{ScheduledStop}
use agentic_guide_system.Planner.Schemas.{plan, validate, RouteDay, ToolResult}
use agentic_guide_system.Planner.State.{TravelState}
use agentic_guide_system.Planner.Samples.{new_state, one_day}
use agentic_guide_system.Travel.Validator.Verdict.{IsValidTrip}
use agentic_guide_system.Planner.Tools.{built, build_route, places_to_route, validate_itinerary}
use agentic_guide_system.Planner.Tools.Plans.{ArePlansOf}
use agentic_guide_system.Planner.Tools.Results.{
  itinerary_of, IsRouted, validate_itinerary-IsValidTrip, build_route-IsRouted,
}

abbrev ranked_state : TravelState
ranked_state = record (new_state plan) { ranked_pois = stops; days = 2 }

abbrev scheduled_state : TravelState
scheduled_state = record (new_state validate) { schedule = one_day }

abbrev spread : List ScheduledStop → ℕ
spread day = 0

ranked_places : is_empty (places_to_route [] ranked_state) ≡ false
unfolding places_to_route
ranked_places = refl

build_route-IsRouted_example :
    (route : List RouteDay) × (build_route geometry
        (some routing)
        (some (pos 10, pos 20))
        []
        ranked_state
      ≡ some (built (places_to_route [] ranked_state) route))
    × (length route ≡ 2)
    × All IsRouted route
build_route-IsRouted_example =
    build_route-IsRouted geometry routing (pos 10, pos 20) [] ranked_state ranked_places

validate_itinerary-IsValidTrip_example :
    ArePlansOf scheduled_state.schedule scheduled_state.route (itinerary_of scheduled_state).days
    × (((r : ToolResult) × (validate_itinerary spread scheduled_state ≡ some r) × (r.ok ≡ true))
        ↔ IsValidTrip spread (itinerary_of scheduled_state))
validate_itinerary-IsValidTrip_example = validate_itinerary-IsValidTrip spread scheduled_state
