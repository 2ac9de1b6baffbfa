-- ===== src/Travel/Route.antt =====
-- src/travel_engine/route_optimizer.py: the order of a day's stops with the least travel, and the
-- loop that drops the lowest-scored stop while the day is over its travel cap.
pub mod Victims
pub mod Optimal
pub mod Dropping
pub mod Kept
pub mod Tests
use Prim.Native.Nat.{compare, Ordering}
use agentic_guide_system.Prelude.{
  ℕ, zero, suc, ◌+◌, ◌^◌, String, Option, none, some, Bool, true, false, not, ◌&&◌, ◌||◌, List, [],
  ◌∷◌, ◌++◌, map, length, keep, is_empty, ltb, leb, ◌==◌, if◌then◌else◌,
}
use agentic_guide_system.Prelude.Dict.{Dict, get, pair_eq}
use agentic_guide_system.Prelude.Int.{ℤ}
use agentic_guide_system.Prelude.Order.{and_then, at_most, compare_codes, compare_text}
use agentic_guide_system.Prelude.Permutations.{permutations}
use agentic_guide_system.Prelude.Sort.{min_by}
use agentic_guide_system.Travel.Rules.{
  base_sentinel_id, max_daily_travel_min, max_route_drop_attempts,
}
use agentic_guide_system.Travel.Places.{ScoredPlace}
use agentic_guide_system.Travel.Routing.{RouteLeg, RoutingProvider, legs_to_lookup}

abbrev pub missing_leg_penalty : ℕ
missing_leg_penalty = 10 ^ 9

pub record DroppedStop : Type 0 where
  pub place_id : ℕ
  pub name : Option String
  pub reason : String

pub record OptimizeResult : Type 0 where
  pub ordered : List ScoredPlace
  pub legs : List RouteLeg
  pub total_travel_min : ℕ
  pub dropped_stops : List DroppedStop
  pub still_over_budget : Bool
  pub leg_polylines : List (Option String)
  pub day_polyline : Option String

abbrev pub Lookup : Type 0
Lookup = Dict (ℕ × ℕ) RouteLeg

abbrev duration_of : Option RouteLeg → ℕ
duration_of none = missing_leg_penalty
duration_of (some leg) = leg.duration_min

unfoldable pub leg_duration : Lookup → ℕ → ℕ → ℕ
leg_duration lookup from_id to_id = duration_of (get lookup (from_id, to_id))

-- The loop over consecutive pairs, from the stop that was reached last.
unfoldable pub score_from : Lookup → ℕ → List ScoredPlace → ℕ
unfolding leg_duration
score_from lookup from_id [] = 0
score_from lookup from_id (s ∷ rest) =
    leg_duration lookup from_id s.place.id + score_from lookup s.place.id rest

unfoldable pub score_order : List ScoredPlace → Lookup → ℕ
unfolding score_from
score_order order lookup = score_from lookup base_sentinel_id order

-- The leg of a pair, or one with the penalty.
abbrev leg_or_penalty : ℕ → ℕ → Option RouteLeg → RouteLeg
leg_or_penalty from_id to_id (some leg) = leg
leg_or_penalty from_id to_id none = record {
  from_place_id = from_id;
  to_place_id = to_id;
  duration_min = missing_leg_penalty;
  distance_m = 0;
  used_fallback = false;
}

legs_from : Lookup → ℕ → List ScoredPlace → List RouteLeg
legs_from lookup from_id [] = []
legs_from lookup from_id (s ∷ rest) =
    leg_or_penalty from_id s.place.id (get lookup (from_id, s.place.id))
    ∷ legs_from lookup s.place.id rest

pub consecutive_legs : List ScoredPlace → Lookup → List RouteLeg
unfolding legs_from
consecutive_legs order lookup = legs_from lookup base_sentinel_id order

abbrev place_ids : List ScoredPlace → List ℕ
place_ids order = map (λ s. s.place.id) order

-- `best_order`, `best_total` and `best_ids` after the first permutation.
pub record Best : Type 0 where
  pub order : List ScoredPlace
  pub total : ℕ
  pub ids : List ℕ

candidate : Lookup → List ScoredPlace → Best
candidate lookup perm = record {
  order = perm;
  total = score_order perm lookup;
  ids = place_ids perm;
}

-- `total < best_total or (total == best_total and ids < best_ids)`
is_lt : Ordering → Bool
is_lt Ordering.lt = true
is_lt _ = false

improves : Best → Best → Bool
unfolding is_lt
improves new best =
    ltb new.total best.total || (new.total == best.total && is_lt (compare_codes new.ids best.ids))

best_from : Lookup → Best → List (List ScoredPlace) → Best
unfolding candidate improves
best_from lookup best [] = best
best_from lookup best (perm ∷ perms) =
    best_from lookup (if improves (candidate lookup perm) best then candidate lookup perm else best)
      perms

-- The empty list of permutations does not occur: there is one of the empty list too.
best_of : Lookup → List (List ScoredPlace) → Best
unfolding best_from candidate
best_of lookup [] = candidate lookup []
best_of lookup (perm ∷ perms) = best_from lookup (candidate lookup perm) perms

unfoldable pub best_order : List ScoredPlace → Lookup → List ScoredPlace × ℕ × List RouteLeg
unfolding best_of consecutive_legs permutations
best_order [] lookup = ([], 0, [])
best_order (s ∷ rest) lookup =
    let best = best_of lookup (permutations (s ∷ rest)) in
    (best.order, best.total, consecutive_legs best.order lookup)

-- The key `(score, name, str(id))`.
abbrev compare_weakness : ScoredPlace → ScoredPlace → Ordering
compare_weakness s t =
    and_then (compare s.score t.score)
      (and_then (compare_text s.place.name t.place.name) (compare s.place.id t.place.id))

unfoldable pub weaker_leb : ScoredPlace → ScoredPlace → Bool
weaker_leb s t = at_most (compare_weakness s t)

unfoldable pub pick_lowest_scored : ScoredPlace → List ScoredPlace → ScoredPlace
pick_lowest_scored s rest = min_by weaker_leb s rest

drop_stop : ScoredPlace → DroppedStop
drop_stop victim = record {
  place_id = victim.place.id;
  name = some victim.place.name;
  reason = "exceeded_max_daily_travel";
}

abbrev pub without : ScoredPlace → List ScoredPlace → List ScoredPlace
without victim remaining = keep (λ s. not (s.place.id == victim.place.id)) remaining

module _ (base_lat base_lng : ℤ) (routing : RoutingProvider) where
  abbrev point : ScoredPlace → ℤ × ℤ
  point s = (s.place.lat, s.place.lng)

  -- `route_polyline(waypoints_final[i : i + 2])` for each stop, from the point before it.
  polylines_from : ℤ × ℤ → List ScoredPlace → List (Option String)
  polylines_from previous [] = []
  polylines_from previous (s ∷ rest) =
      routing.route_polyline (previous ∷ point s ∷ []) ∷ polylines_from (point s) rest

  unfoldable pub populate_leg_polylines : List ScoredPlace → List (Option String) × Option String
  unfolding polylines_from
  populate_leg_polylines [] = ([], none)
  populate_leg_polylines (s ∷ rest) = (
    polylines_from (base_lat, base_lng) (s ∷ rest),
    routing.route_polyline ((base_lat, base_lng) ∷ map point (s ∷ rest)),
  )

  unfoldable pub day_waypoints : List ScoredPlace → List (ℕ × ℤ × ℤ)
  day_waypoints remaining =
      (base_sentinel_id, base_lat, base_lng)
      ∷ map (λ s. (s.place.id, s.place.lat, s.place.lng)) remaining

  -- The two `return` statements of the loop.
  finish : List ScoredPlace → List RouteLeg → ℕ → List DroppedStop → Bool → OptimizeResult
  finish ordered legs total dropped over =
      let (leg_polylines, day_polyline) = populate_leg_polylines ordered in
      record {
        ordered = ordered;
        legs = legs;
        total_travel_min = if is_empty ordered then 0 else total;
        dropped_stops = dropped;
        still_over_budget = over;
        leg_polylines = leg_polylines;
        day_polyline = day_polyline;
      }

  -- The `while True` loop; `left` is MAX_ROUTE_DROP_ATTEMPTS - drops_done.
  pub optimize_from : ℕ → List ScoredPlace → List DroppedStop → OptimizeResult
  unfolding finish drop_stop
  optimize_from left [] dropped =
      finish [] (routing.travel_matrix (day_waypoints [])) 0 dropped false
  optimize_from zero (s ∷ rest) dropped =
      let matrix = routing.travel_matrix (day_waypoints (s ∷ rest)) in
      let (ordered, total, _) = best_order (s ∷ rest) (legs_to_lookup matrix) in
      let under_budget = leb total max_daily_travel_min in
      if under_budget || is_empty rest
      then finish ordered matrix total dropped (not (is_empty ordered) && not under_budget)
      else finish ordered matrix total dropped true
  optimize_from (suc left) (s ∷ rest) dropped =
      let matrix = routing.travel_matrix (day_waypoints (s ∷ rest)) in
      let (ordered, total, _) = best_order (s ∷ rest) (legs_to_lookup matrix) in
      let under_budget = leb total max_daily_travel_min in
      let victim = pick_lowest_scored s rest in
      let again =
        optimize_from left (without victim (s ∷ rest)) (dropped ++ drop_stop victim ∷ []) in
      if under_budget || is_empty rest
      then finish ordered matrix total dropped (not (is_empty ordered) && not under_budget)
      else again

  -- `OptimizeResult()` for no places at all, without a call of the service.
  unfoldable pub optimize_route : List ScoredPlace → OptimizeResult
  unfolding optimize_from
  optimize_route [] = record {
    ordered = [];
    legs = [];
    total_travel_min = 0;
    dropped_stops = [];
    still_over_budget = false;
    leg_polylines = [];
    day_polyline = none;
  }
  optimize_route (s ∷ rest) = optimize_from max_route_drop_attempts (s ∷ rest) []
