-- ===== src/Trips/Days.antt =====
-- src/trips/service.py: the helpers that turn the stored stops of a day into places to route, and a
-- schedule into a day plan. Edits score every place 1.0, in tenths 10.
use Prim.Native.Nat.{compare}
use agentic_guide_system.Prelude.{
  ℕ, ◌+◌, String, Option, none, some, Bool, List, [], ◌∷◌, map, keep, ◌==◌, is_empty, sum_by,
  if◌then◌else◌,
}
use agentic_guide_system.Prelude.Dict.{Dict, get, put, nat_eq, pair_eq}
use agentic_guide_system.Prelude.Int.{ℤ}
use agentic_guide_system.Prelude.Order.{at_most, codes}
use agentic_guide_system.Prelude.Sort.{sort_by}
use agentic_guide_system.Prelude.Result.{Result, ok, err, ◌>>=◌}
use agentic_guide_system.Travel.Rules.{base_sentinel_id}
use agentic_guide_system.Travel.Places.{ScoredPlace}
use agentic_guide_system.Travel.Routing.{RouteLeg, RoutingProvider, legs_to_lookup}
use agentic_guide_system.Travel.Route.{
  Lookup, OptimizeResult, day_waypoints, populate_leg_polylines,
}
use agentic_guide_system.Travel.Schedule.{ScheduledStop, required_hops}
use agentic_guide_system.Travel.Validator.{DayPlan}
use agentic_guide_system.Trips.{
  Place, Destination, StopRow, LoadedStop, Trip, LoadedTrip, StopSnapshot, TripError, edit_refused,
  missing_joined_place, missing_route_leg, edit_would_drop_other_stops, number,
}

-- A list comprehension whose element may raise.
unfoldable pub each {ε α β} :
    {E : Type ε} {A : Type α} {B : Type β} → (A → Result E B) → List A → Result E (List B)
each f [] = ok []
each f (x ∷ xs) = do y ← f x; ys ← each f xs; ok (y ∷ ys)

-- Both coordinates are numbers, or the destination's are taken.
unfoldable pub resolve_base : Trip → Destination → ℤ × ℤ
resolve_base trip destination = elim trip.preferences.base_lat [
  | number lat ↦ elim trip.preferences.base_lng [
    | number lng ↦ (lat, lng)
    | _ ↦ (destination.lat, destination.lng)
  ]
  | _ ↦ (destination.lat, destination.lng)
]

unfoldable pub places_for_day : LoadedTrip → ℕ → List LoadedStop
places_for_day trip day = keep (λ tp. tp.stop.row.day_number == day) trip.places

abbrev tags_or_none : Option (List String) → List String
tags_or_none none = []
tags_or_none (some tags) = tags

-- The `ScoredPlace` of a place, also where `add_stop` builds it.
unfoldable pub scored_place : Place → ScoredPlace
scored_place place = record {
  place = record {
    id = place.id;
    name = place.name;
    category = place.category;
    enriched_tags = tags_or_none place.enriched_tags;
    lat = place.lat;
    lng = place.lng;
  };
  score = 10;
  score_breakdown = [];
}

unfoldable pub hydrate_scored : LoadedStop → Result TripError ScoredPlace
unfolding scored_place
hydrate_scored tp = elim tp.place [
  | none ↦ err (edit_refused (missing_joined_place tp.stop.id))
  | some place ↦ ok (scored_place place)
]

abbrev pub in_day_order : LoadedStop → LoadedStop → Bool
in_day_order a b = at_most (compare a.stop.row.order_in_day b.stop.row.order_in_day)

unfoldable pub snapshot_stop : StopRow → StopSnapshot
snapshot_stop row = record {
  place_id = row.place_id;
  order_in_day = row.order_in_day;
  travel_time_min = row.travel_time_min;
  visit_duration_min = row.visit_duration_min;
  suggested_start_time = row.suggested_start_time;
  polyline = row.polyline;
}

unfoldable pub snapshot_day : List LoadedStop → List StopSnapshot
unfolding sort_by snapshot_stop
snapshot_day stops = map (λ tp. snapshot_stop tp.stop.row) (sort_by in_day_order stops)

unfoldable pub leg_of : Lookup → ℕ × ℕ → Result TripError RouteLeg
leg_of lookup hop = elim (get lookup hop) [
  | none ↦ err (edit_refused (missing_route_leg hop.0 hop.1))
  | some leg ↦ ok leg
]

-- The legs from the base on along the order.
unfoldable pub consecutive_legs_for_order :
    List ScoredPlace → Lookup → Result TripError (List RouteLeg)
unfolding each leg_of required_hops
consecutive_legs_for_order order lookup = each (leg_of lookup) (required_hops order)

unfoldable pub polyline_by_place_id :
    Dict ℕ (Option String) → List ScoredPlace → List (Option String) → Dict ℕ (Option String)
polyline_by_place_id out [] polylines = out
polyline_by_place_id out (s ∷ rest) [] = polyline_by_place_id (put out s.place.id none) rest []
polyline_by_place_id out (s ∷ rest) (p ∷ polylines) =
    polyline_by_place_id (put out s.place.id p) rest polylines

unfoldable pub travel_into_stop : Lookup → ℕ → ℕ → ℕ
travel_into_stop lookup frm to = elim (get lookup (frm, to)) [
  | none ↦ 0
  | some leg ↦ leg.duration_min
]

unfoldable pub travel_total : Lookup → ℕ → List ScheduledStop → ℕ
unfolding travel_into_stop
travel_total lookup prev [] = 0
travel_total lookup prev (stop ∷ stops) =
    travel_into_stop lookup prev stop.place.id + travel_total lookup stop.place.id stops

unfoldable pub day_plan_from_scheduled : List ScheduledStop → List RouteLeg → DayPlan
unfolding travel_total
day_plan_from_scheduled scheduled legs = record {
  stops = scheduled;
  total_travel_min = travel_total (legs_to_lookup legs) base_sentinel_id scheduled;
  dropped_stops = [];
}

-- `tp.suggested_start_time or "08:00"`
abbrev start_or_default : Option (List ℕ) → List ℕ
start_or_default none = codes "08:00"
start_or_default (some []) = codes "08:00"
start_or_default (some (c ∷ cs)) = c ∷ cs

unfoldable pub stored_stop : LoadedStop → Result TripError ScheduledStop
unfolding hydrate_scored
stored_stop tp = do
  scored ← hydrate_scored tp
  ok (record {
    place = scored.place;
    score = 10;
    visit_duration = tp.stop.row.visit_duration_min;
    suggested_start_time = start_or_default tp.stop.row.suggested_start_time;
    arrival_note = tp.stop.row.arrival_note;
  })

unfoldable pub day_plan_from_stored : List LoadedStop → Result TripError DayPlan
unfolding each stored_stop sort_by
day_plan_from_stored places_of_day = do
  let ordered = sort_by in_day_order places_of_day
  stops ← each stored_stop ordered
  ok (record {
    stops = stops;
    total_travel_min = sum_by (λ tp. tp.stop.row.travel_time_min) ordered;
    dropped_stops = [];
  })

unfoldable pub reject_if_dropped : OptimizeResult → Result TripError (Unit {0})
reject_if_dropped result =
    if is_empty result.dropped_stops
    then ok tt
    else err (edit_refused (edit_would_drop_other_stops result.dropped_stops))

-- `_fixed_order_day`: the matrix once, its legs along the order, and the polylines.
unfoldable pub fixed_order_day :
    List ScoredPlace
    → ℤ
    → ℤ
    → RoutingProvider
    → Result TripError (List ScoredPlace × List RouteLeg × List (Option String))
unfolding consecutive_legs_for_order day_waypoints
fixed_order_day [] base_lat base_lng routing = ok ([], [], [])
fixed_order_day (s ∷ rest) base_lat base_lng routing = do
  let matrix = routing.travel_matrix (day_waypoints base_lat base_lng routing (s ∷ rest))
  consecutive ← consecutive_legs_for_order (s ∷ rest) (legs_to_lookup matrix)
  let leg_polylines = (populate_leg_polylines base_lat base_lng routing (s ∷ rest)).0
  ok (s ∷ rest, consecutive, leg_polylines)
