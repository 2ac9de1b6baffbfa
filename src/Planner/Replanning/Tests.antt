-- ===== src/Planner/Replanning/Tests.antt =====
-- A day of three stops without its weakest stop.
use agentic_guide_system.Prelude.{
  ◌≡◌, refl, true, false, Option, none, some, Bool, [], ◌∷◌, is_empty, List,
}
use agentic_guide_system.Prelude.Int.{pos}
use agentic_guide_system.Travel.Places.{ScoredPlace, rank_leb}
use agentic_guide_system.Travel.Samples.{
  geometry, routing, stops, scored, monastery, viewpoint, cafe,
}
use agentic_guide_system.Travel.Route.{
  pick_lowest_scored, optimize_route, weaker_leb, best_order, score_order, day_waypoints,
}
use agentic_guide_system.Planner.Schemas.{replan, RouteDay, ToolResult}
use agentic_guide_system.Planner.State.{TravelState}
use agentic_guide_system.Planner.Samples.{new_state}
use agentic_guide_system.Planner.Orchestration.{entries_of, merge_entries, merge_entry}
use agentic_guide_system.Planner.Replanning.{worst_day, places_without, drop_weakest_stop}
use agentic_guide_system.Planner.Replanning.Dropped.{
  stops_with, has_id, IsReplanned, drop_weakest_stop-IsReplanned,
}
use agentic_guide_system.Planner.Tools.{
  build_route, places_to_route, build_allocated, preferences_from_state, built, route_days,
  route_day, uses_fallback,
}
use agentic_guide_system.Planner.Scheduling.{flat_stops, distance_from, day_dict, schedule_days}
use agentic_guide_system.Prelude.Dict.{get, put}
use agentic_guide_system.Prelude.Order.{compare_codes, compare_text}
use agentic_guide_system.Prelude.Sort.{min_by, sort_by, insert_by}
use agentic_guide_system.Travel.Clock.{format_hhmm}
use agentic_guide_system.Travel.Days.{
  allocate_days, pack, build_clusters, can_add, cluster_leb, day_visit_min, is_morning_only,
  morning_count, place_all, place_item, underfilled_day,
}
use agentic_guide_system.Travel.Routing.{legs_to_lookup}
use agentic_guide_system.Travel.Rules.{visit_duration_min}
use agentic_guide_system.Travel.Schedule.{build_day_schedule, extract_morning_first}
use agentic_guide_system.Planner.Replanning.Weakest.{IsWorst, IsWeakest}

abbrev crowded_day : RouteDay
crowded_day = record {
  ordered = stops;
  legs = [];
  total_travel_min = 400;
  dropped_stops = [];
  still_over_budget = true;
  leg_polylines = [];
  day_polyline = none;
}

abbrev crowded_state : TravelState
crowded_state = record (new_state replan) {
  ranked_pois = stops;
  route = crowded_day ∷ [];
  days = 1;
}

abbrev attempt : Option ToolResult
attempt = drop_weakest_stop geometry (some routing) (some (pos 10, pos 20)) [] crowded_state

abbrev or_failure : Option ToolResult → ToolResult
or_failure none = record { ok = false; code = none; payload = none; fallback_used = false }
or_failure (some result) = result

abbrev succeeded : Option ToolResult → Bool
succeeded result = (or_failure result).ok

attempt-succeeds : succeeded attempt ≡ true
unfolding merge_entry merge_entries build_route places_to_route build_allocated
    preferences_from_state built route_days route_day uses_fallback drop_weakest_stop flat_stops
    distance_from day_dict schedule_days get put compare_codes compare_text min_by sort_by insert_by
    format_hhmm allocate_days pack build_clusters can_add cluster_leb day_visit_min is_morning_only
    morning_count place_all place_item underfilled_day rank_leb optimize_route pick_lowest_scored
    weaker_leb legs_to_lookup visit_duration_min build_day_schedule extract_morning_first best_order
    score_order day_waypoints
attempt-succeeds = refl

or_failure-some :
    (result : Option ToolResult) → succeeded result ≡ true → result ≡ some (or_failure result)
or_failure-some none h = cc
or_failure-some (some result) h = refl

abbrev weakest : ScoredPlace
weakest = pick_lowest_scored (scored 10 monastery) (scored 14 viewpoint ∷ scored 0 cafe ∷ [])

abbrev left_over : List ScoredPlace
left_over = places_without weakest stops crowded_state

abbrev replanned_state : TravelState
replanned_state = merge_entries crowded_state (entries_of (or_failure attempt).payload)

worst_is_crowded : (worst_day crowded_day []).ordered ≡ stops
unfolding worst_day
worst_is_crowded = refl

some_left : is_empty left_over ≡ false
unfolding places_without pick_lowest_scored min_by weaker_leb
some_left = refl

drop_weakest_stop-IsReplanned_example :
    IsWorst (crowded_day ∷ []) (worst_day crowded_day [])
    × IsWeakest (worst_day crowded_day []).ordered weakest
    × ((or_failure attempt).ok ≡ true)
    × IsReplanned geometry routing (pos 10, pos 20) [] left_over crowded_state replanned_state
    × (stops_with (has_id weakest.place.id) replanned_state.route ≡ 0)
drop_weakest_stop-IsReplanned_example =
    drop_weakest_stop-IsReplanned geometry routing (pos 10, pos 20) [] crowded_state crowded_day []
      (scored 10 monastery) (scored 14 viewpoint) (scored 0 cafe ∷ []) refl worst_is_crowded
      some_left (or_failure-some attempt attempt-succeeds)
