-- ===== src/Travel/Route/Tests.antt =====
-- A day of three stops, in the order with the least travel.
use mathlib.Core.List.{Perm}
use agentic_guide_system.Prelude.{◌≤◌, ◌≡◌, refl, true, List, [], ◌∷◌, ◌++◌, map, length, arith}
use agentic_guide_system.Prelude.Int.{pos}
use agentic_guide_system.Prelude.Dict.{get}
use agentic_guide_system.Travel.Samples.{stops, scored, monastery, viewpoint, cafe, routing}
use agentic_guide_system.Travel.Places.{ScoredPlace}
use agentic_guide_system.Travel.Routing.{legs_to_lookup}
use agentic_guide_system.Travel.Route.{
  Lookup, day_waypoints, best_order, score_order, optimize_route,
}
use agentic_guide_system.Travel.Route.Optimal.{best_order-least}
use agentic_guide_system.Travel.Route.Victims.{ids, dropped_ids}
use agentic_guide_system.Travel.Route.Dropping.{
  FlagIsExact, optimize_route-Accounts, optimize_route-budget,
}

abbrev legs : Lookup
legs = legs_to_lookup (routing.travel_matrix (day_waypoints (pos 10) (pos 20) routing stops))

best_order_stops : map (λ s. s.place.id) (best_order stops legs).0 ≡ 1 ∷ 2 ∷ 3 ∷ []
unfolding best_order legs_to_lookup day_waypoints score_order get
best_order_stops = refl

best_order-least_example :
    Perm (best_order stops legs).0 stops
    × ((best_order stops legs).1 ≡ score_order (best_order stops legs).0 legs)
    × ((q : List ScoredPlace) → Perm q stops → (best_order stops legs).1 ≤ score_order q legs)
best_order-least_example =
    best_order-least legs (scored 10 monastery) (scored 14 viewpoint ∷ scored 0 cafe ∷ [])

optimize_route-Accounts_example :
    Perm
      (ids (optimize_route (pos 10) (pos 20) routing stops).ordered
        ++ dropped_ids (optimize_route (pos 10) (pos 20) routing stops).dropped_stops)
      (ids stops)
optimize_route-Accounts_example =
    optimize_route-Accounts (pos 10) (pos 20) routing stops
      ((refl, (refl, tt)), ((refl, tt), (tt, tt)))

optimize_route-budget_example :
    FlagIsExact (pos 10) (pos 20) routing (optimize_route (pos 10) (pos 20) routing stops)
    × ((optimize_route (pos 10) (pos 20) routing stops).still_over_budget ≡ true
        → length (optimize_route (pos 10) (pos 20) routing stops).ordered ≤ 1)
optimize_route-budget_example = optimize_route-budget (pos 10) (pos 20) routing stops (omega arith)
