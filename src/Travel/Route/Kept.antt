-- ===== src/Travel/Route/Kept.antt =====
-- `optimize_route` (src/travel_engine/route_optimizer.py) keeps stops of the day that it is given.
use agentic_guide_system.Prelude.{
  ℕ, zero, suc, ◌≤◌, Bool, not, List, [], ◌∷◌, ◌++◌, ◌==◌, keep, count_by, arith, if_ind,
}
use agentic_guide_system.Prelude.Rearranged.{count_by-perm}
use agentic_guide_system.Prelude.Int.{ℤ}
use agentic_guide_system.Travel.Rules.{max_route_drop_attempts}
use agentic_guide_system.Travel.Places.{ScoredPlace}
use agentic_guide_system.Travel.Routing.{RoutingProvider, legs_to_lookup}
use agentic_guide_system.Travel.Route.{
  OptimizeResult, DroppedStop, Lookup, best_order, pick_lowest_scored, finish, without, drop_stop,
  day_waypoints, optimize_from, optimize_route,
}
use agentic_guide_system.Travel.Route.Optimal.{best_order-least}

module _ (p : ScoredPlace → Bool) where
  count_by-keep :
      (q : ScoredPlace → Bool) (xs : List ScoredPlace) → count_by p (keep q xs) ≤ count_by p xs
  count_by-keep q [] = omega arith
  count_by-keep q (x ∷ xs) = ground (arith, count_by-keep q xs)

  best_order-count :
      (lookup : Lookup) (s : ScoredPlace) (rest : List ScoredPlace)
      → count_by p (best_order (s ∷ rest) lookup).0 ≤ count_by p (s ∷ rest)
  best_order-count lookup s rest = omega (arith, count_by-perm p (best_order-least lookup s rest).0)

  module _ (base_lat base_lng : ℤ) (routing : RoutingProvider) where
    abbrev Keeps : List ScoredPlace → OptimizeResult → Type 0
    Keeps given r = count_by p r.ordered ≤ count_by p given

    optimize_from-Keeps :
        (left : ℕ) (remaining : List ScoredPlace) (dropped : List DroppedStop)
        → Keeps remaining (optimize_from base_lat base_lng routing left remaining dropped)
    unfolding optimize_from finish
    optimize_from-Keeps left [] dropped = omega arith
    optimize_from-Keeps zero (s ∷ rest) dropped =
        let lookup =
          legs_to_lookup
            (routing.travel_matrix (day_waypoints base_lat base_lng routing (s ∷ rest))) in
        let same = best_order-count lookup s rest in if_ind (Keeps (s ∷ rest)) _ same same
    optimize_from-Keeps (suc left) (s ∷ rest) dropped =
        let lookup =
          legs_to_lookup
            (routing.travel_matrix (day_waypoints base_lat base_lng routing (s ∷ rest))) in
        let victim = pick_lowest_scored s rest in
        let left_over = without victim (s ∷ rest) in
        let noted = dropped ++ drop_stop victim ∷ [] in
        let again : Keeps (s ∷ rest)
            (optimize_from base_lat base_lng routing left left_over noted) =
          omega (
            arith,
            optimize_from-Keeps left left_over noted,
            count_by-keep (λ x. not (x.place.id == victim.place.id)) (s ∷ rest),
          ) in
        if_ind (Keeps (s ∷ rest)) _ (best_order-count lookup s rest) again

    pub optimize_route-Keeps :
        (day : List ScoredPlace) → Keeps day (optimize_route base_lat base_lng routing day)
    unfolding optimize_route
    optimize_route-Keeps [] = omega arith
    optimize_route-Keeps (s ∷ rest) = optimize_from-Keeps max_route_drop_attempts (s ∷ rest) []
