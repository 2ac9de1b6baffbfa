-- ===== src/Planner/Replanning.antt =====
-- src/planner/tools: the replanning tools that build the route and the schedule again,
-- reoptimize_routes.py and drop_weakest_stop.py. A `_StateView` shows the keys of some data in place of
-- those of a state. It is no dict, so build_schedule starts from an empty working state there, and
-- writes the schedule alone.
pub mod Weakest
pub mod Dropped
pub mod Tests
use agentic_guide_system.Prelude.{
  String, Option, none, some, Bool, true, false, not, ◌&&◌, ◌||◌, List, [], ◌∷◌, ◌++◌, is_empty,
  ltb, if◌then◌else◌,
}
use agentic_guide_system.Prelude.Int.{ℤ}
use agentic_guide_system.Travel.Places.{ScoredPlace}
use agentic_guide_system.Travel.Days.{Geometry}
use agentic_guide_system.Travel.Routing.{RoutingProvider}
use agentic_guide_system.Travel.Route.{pick_lowest_scored, without}
use agentic_guide_system.Planner.Schemas.{RouteDay, ScheduleDay, Entry, ToolResult}
use agentic_guide_system.Planner.State.{TravelState}
use agentic_guide_system.Planner.Orchestration.{entries_of}
use agentic_guide_system.Planner.Tools.{build_route, succeeds, fails}
use agentic_guide_system.Planner.Scheduling.{code_or, schedule_days}

-- `_StateView`, as far as the tools that it is given to read it.
unfoldable pub state_view : TravelState → List Entry → TravelState
state_view st [] = st
state_view st (Entry.route v ∷ es) = state_view (record st { route = v }) es
state_view st (Entry.ranked_pois v ∷ es) = state_view (record st { ranked_pois = v }) es
state_view st (Entry.used_osrm_fallback v ∷ es) =
    state_view (record st { used_osrm_fallback = v }) es
state_view st (e ∷ es) = state_view st es

-- build_schedule.run on a view. Without a route, build_route is run on the empty working state, which
-- has no places; with the coordinates of the state alone it would name those as missing. The route
-- that build_route gives is never empty.
schedule_result : Option (List ScheduleDay) → Option ToolResult
schedule_result none = none
schedule_result (some schedule) = some (succeeds (Entry.schedule schedule ∷ []))

unfoldable pub build_schedule_on_view : TravelState → Option ToolResult
unfolding schedule_result
build_schedule_on_view view =
    if is_empty view.route
    then some (fails "no_ranked_places")
    else schedule_result (schedule_days 1 view.route)

-- The results of the two tools of reoptimize_routes as one.
unfoldable pub joined : List Entry → Bool → ToolResult → ToolResult
joined merged fallback sched = record {
  ok = sched.ok;
  code = if sched.ok then none else code_or sched.code "tool_error";
  payload = some (merged ++ entries_of sched.payload);
  fallback_used = fallback || (sched.ok && sched.fallback_used);
}

-- `none` is an exception of build_schedule.
unfoldable pub reoptimized : List Entry → Bool → Option ToolResult → Option ToolResult
unfolding joined
reoptimized merged fallback none = none
reoptimized merged fallback (some sched) = some (joined merged fallback sched)

-- The results of the two tools of `_rebuild` as one.
unfoldable pub rebuilt : List Entry → Bool → Option ToolResult → Option ToolResult
rebuilt merged fallback none = none
rebuilt merged fallback (some sched) = some (record {
  ok = sched.ok;
  code = sched.code;
  payload = some (merged ++ entries_of sched.payload);
  fallback_used = fallback || sched.fallback_used;
})

-- The day with the most travel, the first of equals.
unfoldable pub worst_day : RouteDay → List RouteDay → RouteDay
worst_day best [] = best
worst_day best (day ∷ days) =
    worst_day (if ltb best.total_travel_min day.total_travel_min then day else best) days

-- The ranked places without the victim, or those of its day where none are ranked.
unfoldable pub places_without : ScoredPlace → List ScoredPlace → TravelState → List ScoredPlace
places_without victim ordered st =
    without victim (if is_empty st.ranked_pois then ordered else st.ranked_pois)

nothing_to_drop : TravelState → ToolResult
nothing_to_drop st = record {
  ok = true;
  code = some "nothing_to_drop";
  payload = some (Entry.route st.route ∷ Entry.schedule st.schedule ∷ []);
  fallback_used = false;
}

module _ (geo : Geometry) (routing : Option RoutingProvider) (base : Option (ℤ × ℤ))
    (raw_words : List String) where
  unfoldable pub reoptimize_with : TravelState → Option ToolResult → Option ToolResult
  unfolding reoptimized state_view build_schedule_on_view
  reoptimize_with st none = none
  reoptimize_with st (some result) =
      let merged = entries_of result.payload in
      if not result.ok
      then some result
      else reoptimized merged result.fallback_used (build_schedule_on_view (state_view st merged))

  -- reoptimize_routes.run
  unfoldable pub reoptimize_routes : TravelState → Option ToolResult
  unfolding reoptimize_with
  reoptimize_routes st = reoptimize_with st (build_route geo routing base raw_words st)

  unfoldable pub rebuild_with : TravelState → List Entry → Option ToolResult → Option ToolResult
  unfolding rebuilt state_view build_schedule_on_view
  rebuild_with st notes none = none
  rebuild_with st notes (some result) =
      let merged = entries_of result.payload ++ notes in
      if not result.ok
      then some result
      else rebuilt merged result.fallback_used (build_schedule_on_view (state_view st merged))

  -- `_rebuild`, with the notes that it writes for the reader.
  unfoldable pub rebuild : TravelState → List Entry → Option ToolResult
  unfolding rebuild_with
  rebuild st notes = rebuild_with st notes (build_route geo routing base raw_words st)

  abbrev pub drop_notes : List Entry
  drop_notes = Entry.other "last_dropped_place_id" ∷ Entry.other "drop_note" ∷ []

  -- What drop_weakest_stop does with the stops of the worst day.
  unfoldable pub drop_from : TravelState → List ScoredPlace → Option ToolResult
  unfolding nothing_to_drop places_without rebuild
  drop_from st [] = some (nothing_to_drop st)
  drop_from st (s ∷ []) = some (nothing_to_drop st)
  drop_from st (s ∷ t ∷ rest) =
      let victim = pick_lowest_scored s (t ∷ rest) in
      rebuild (record st { ranked_pois = places_without victim (s ∷ t ∷ rest) st }) drop_notes

  unfoldable pub drop_on : TravelState → List RouteDay → Option ToolResult
  unfolding drop_from worst_day
  drop_on st [] = rebuild st (Entry.other "drop_note" ∷ [])
  drop_on st (day ∷ days) = drop_from st (worst_day day days).ordered

  -- drop_weakest_stop.run
  unfoldable pub drop_weakest_stop : TravelState → Option ToolResult
  unfolding drop_on
  drop_weakest_stop st = drop_on st st.route
