-- ===== src/Planner/Scheduling/Days.antt =====
-- src/planner/tools/build_schedule.py: the travel times that the record of a day carries.
use agentic_guide_system.Prelude.{
  ℕ, suc, ◌≡◌, ◌≢◌, refl, sym, ap, ◌∙◌, subst, false, Option, List, [], ◌∷◌, map, sum_by, All,
  arith, String,
}
use agentic_guide_system.Prelude.Dict.{Dict, nat_eq, pair_eq}
use agentic_guide_system.Prelude.Result.{ok}
use agentic_guide_system.Travel.Rules.{base_sentinel_id}
use agentic_guide_system.Travel.Places.{ScoredPlace}
use agentic_guide_system.Travel.Routing.{legs_to_lookup}
use agentic_guide_system.Travel.Route.{Lookup, leg_duration, score_from, score_order}
use agentic_guide_system.Travel.Schedule.{
  ScheduledStop, Timed, to_stop, hops_from, required_hops, build_day_schedule,
}
use agentic_guide_system.Travel.Schedule.Build.{
  HasLeg, timed_order, build_day_schedule-IsTimetable, build_day_schedule-HasLeg,
}
use agentic_guide_system.Planner.Schemas.{RouteDay, FlatStop}
use agentic_guide_system.Planner.Scheduling.{
  polyline_by_place, hop_travel_min, flat_stop, flat_stops, day_dict,
}

-- The minutes on the way that the stops of a day's record carry together.
abbrev pub minutes : List FlatStop → ℕ
minutes stops = sum_by (λ f. f.travel_time_min) stops

abbrev scored_of : List Timed → List ScoredPlace
scored_of timed = map (λ t. t.scored) timed

hop_travel_min-leg_duration :
    (lookup : Lookup) (a b : ℕ)
    → HasLeg lookup (a, b)
    → hop_travel_min lookup a b ≡ leg_duration lookup a b
unfolding hop_travel_min leg_duration
hop_travel_min-leg_duration lookup a b (leg, e) = rw e refl

flat_stops-minutes :
    (lookup : Lookup) (polylines : Dict ℕ (Option String)) (previous order : ℕ) (timed : List Timed)
    → All (HasLeg lookup) (hops_from previous (scored_of timed))
    → minutes (flat_stops lookup polylines previous order (map to_stop timed))
      ≡ score_from lookup previous (scored_of timed)
unfolding flat_stops flat_stop hops_from score_from to_stop
flat_stops-minutes lookup polylines previous order [] h = refl
flat_stops-minutes lookup polylines previous order (t ∷ timed) h = omega (
  arith,
  hop_travel_min-leg_duration lookup previous t.scored.place.id h.0,
  flat_stops-minutes lookup polylines t.scored.place.id (suc order) timed h.1,
)

order_minutes :
    (lookup : Lookup) (polylines : Dict ℕ (Option String)) (timed : List Timed)
    (order : List ScoredPlace) (scheduled : List ScheduledStop)
    → map to_stop timed ≡ scheduled
    → scored_of timed ≡ order
    → All (HasLeg lookup) (required_hops order)
    → minutes (flat_stops lookup polylines base_sentinel_id 1 scheduled) ≡ score_order order lookup
unfolding required_hops score_order
order_minutes lookup polylines timed order scheduled made stops legs =
    let legs_timed =
      subst (λ (o : List ScoredPlace). All (HasLeg lookup) (required_hops o)) (sym stops) legs in
    ap (λ s. minutes (flat_stops lookup polylines base_sentinel_id 1 s)) (sym made)
    ∙ flat_stops-minutes lookup polylines base_sentinel_id 1 timed legs_timed
    ∙ ap (λ o. score_order o lookup) stops

-- Where a day with stops is scheduled without an error, the travel times of the stops in its record add
-- up to the travel time of the order that is timed, from the base on.
pub day_dict-minutes :
    (day_num : ℕ) (day : RouteDay) {scheduled : List ScheduledStop}
    → build_day_schedule day.ordered day.legs false ≡ ok scheduled
    → day.ordered ≢ []
    → minutes (day_dict day_num day scheduled).stops
      ≡ score_order (timed_order day.ordered false) (legs_to_lookup day.legs)
unfolding day_dict
day_dict-minutes day_num day {scheduled} e ne =
    let lookup = legs_to_lookup day.legs in
    let (timed, made, _, table) = build_day_schedule-IsTimetable day.ordered day.legs false e ne in
    let legs = build_day_schedule-HasLeg day.ordered day.legs false e ne in
    order_minutes lookup (polyline_by_place [] day.ordered day.leg_polylines) timed
      (timed_order day.ordered false) scheduled made table.stops legs
