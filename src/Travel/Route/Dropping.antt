-- ===== src/Travel/Route/Dropping.antt =====
-- The drop-and-retry loop of `optimize_route` (src/travel_engine/route_optimizer.py).
use mathlib.Core.List.{Perm, perm_append_comm, append-nil, append_assoc, map-append}
use mathlib.Core.List.Perm
use agentic_guide_system.Prelude.{
  ℕ, zero, suc, ◌+◌, ◌≤◌, ◌≡◌, refl, subst, ◌⊎◌, inl, inr, Bool, true, false, not, ◌&&◌, ◌||◌, List,
  [], ◌∷◌, ◌++◌, length, is_empty, leb, ◌==◌, arith, if_ind, if_cases,
}
use agentic_guide_system.Prelude.Rearranged.{length-perm}
use agentic_guide_system.Prelude.Int.{ℤ}
use agentic_guide_system.Travel.Rules.{
  max_daily_travel_min, max_route_drop_attempts, max_places_per_day,
}
use agentic_guide_system.Travel.Places.{ScoredPlace}
use agentic_guide_system.Travel.Routing.{RouteLeg, RoutingProvider, legs_to_lookup}
use agentic_guide_system.Travel.Route.{
  OptimizeResult, DroppedStop, best_order, pick_lowest_scored, finish, without, drop_stop,
  day_waypoints, optimize_from, optimize_route,
}
use agentic_guide_system.Travel.Route.Optimal.{best_order-least}
use agentic_guide_system.Travel.Route.Victims.{
  ids, dropped_ids, DistinctIds, ids-without-perm, DistinctIds-keep, pick-HasVictim, length-without,
}

module _ (base_lat base_lng : ℤ) (routing : RoutingProvider) where
  abbrev optimized : ℕ → List ScoredPlace → List DroppedStop → OptimizeResult
  optimized = optimize_from base_lat base_lng routing

  -- The ids of the result's stops and dropped stops are those given.
  abbrev Accounts : List ScoredPlace → List DroppedStop → OptimizeResult → Type 0
  Accounts remaining dropped r =
      Perm (ids r.ordered ++ dropped_ids r.dropped_stops) (ids remaining ++ dropped_ids dropped)

  one_more :
      (v : ℕ) (kept given : List ℕ) (dropped : List ℕ)
      → Perm (v ∷ kept) given
      → Perm (kept ++ (dropped ++ v ∷ [])) (given ++ dropped)
  one_more v kept given dropped p =
      Perm.trans
        (subst (λ (l : List ℕ). Perm l (v ∷ (kept ++ dropped))) (append_assoc kept dropped (v ∷ []))
          (perm_append_comm (kept ++ dropped) (v ∷ [])))
        (Perm.append_right dropped p)

  optimize_from-Accounts :
      (left : ℕ) (remaining : List ScoredPlace) (dropped : List DroppedStop)
      → DistinctIds remaining
      → Accounts remaining dropped (optimized left remaining dropped)
  unfolding optimize_from finish
  optimize_from-Accounts left [] dropped d = Perm.refl (dropped_ids dropped)
  optimize_from-Accounts zero (s ∷ rest) dropped d =
      let least =
        best_order-least
          (legs_to_lookup
            (routing.travel_matrix (day_waypoints base_lat base_lng routing (s ∷ rest))))
          s rest in
      let found =
        Perm.append_right (dropped_ids dropped)
          (Perm.map (λ (t : ScoredPlace). t.place.id) least.0) in
      if_ind (Accounts (s ∷ rest) dropped) _ found found
  optimize_from-Accounts (suc left) (s ∷ rest) dropped d =
      let least =
        best_order-least
          (legs_to_lookup
            (routing.travel_matrix (day_waypoints base_lat base_lng routing (s ∷ rest))))
          s rest in
      let found =
        Perm.append_right (dropped_ids dropped)
          (Perm.map (λ (t : ScoredPlace). t.place.id) least.0) in
      let victim = pick_lowest_scored s rest in
      let again =
        optimize_from-Accounts left (without victim (s ∷ rest)) (dropped ++ drop_stop victim ∷ [])
          (DistinctIds-keep (λ x. not (x.place.id == victim.place.id)) (s ∷ rest) d) in
      let moved =
        one_more victim.place.id (ids (without victim (s ∷ rest))) (ids (s ∷ rest))
          (dropped_ids dropped) (ids-without-perm victim (s ∷ rest) d (pick-HasVictim s rest)) in
      if_ind (Accounts (s ∷ rest) dropped) _ found (Perm.trans again (rw map-append moved))

  -- With distinct ids, the stops of the result and the dropped stops are together the stops of the
  -- day, each once.
  pub optimize_route-Accounts :
      (day_places : List ScoredPlace)
      → DistinctIds day_places
      → Perm
          (ids (optimize_route base_lat base_lng routing day_places).ordered
            ++ dropped_ids (optimize_route base_lat base_lng routing day_places).dropped_stops)
          (ids day_places)
  unfolding optimize_route
  optimize_route-Accounts [] d = Perm.refl []
  optimize_route-Accounts (s ∷ rest) d =
      Perm.trans (optimize_from-Accounts max_route_drop_attempts (s ∷ rest) [] d)
        (rw append-nil (Perm.refl (ids (s ∷ rest))))

  -- The flag tells whether the reported travel time is over the cap.
  abbrev pub FlagIsExact : OptimizeResult → Type 0
  FlagIsExact r = r.still_over_budget ≡ not (leb r.total_travel_min max_daily_travel_min)

  abbrev StopsWhenOver : ℕ → ℕ → OptimizeResult → Type 0
  StopsWhenOver left size r =
      r.still_over_budget ≡ true → (length r.ordered ≤ 1) ⊎ (length r.ordered + left ≤ size)

  finish-FlagIsExact :
      (ordered : List ScoredPlace) (legs : List RouteLeg) (total : ℕ) (dropped : List DroppedStop)
      (over : Bool)
      → over ≡ (not (is_empty ordered) && not (leb total max_daily_travel_min))
      → FlagIsExact (finish base_lat base_lng routing ordered legs total dropped over)
  unfolding finish
  finish-FlagIsExact [] legs total dropped over e = ground arith
  finish-FlagIsExact (s ∷ rest) legs total dropped over e = ground arith

  finish-StopsWhenOver :
      (left size : ℕ) (ordered : List ScoredPlace) (legs : List RouteLeg) (total : ℕ)
      (dropped : List DroppedStop) (over : Bool)
      → (over ≡ true → (length ordered ≤ 1) ⊎ (length ordered + left ≤ size))
      → StopsWhenOver left size (finish base_lat base_lng routing ordered legs total dropped over)
  unfolding finish
  finish-StopsWhenOver left size ordered legs total dropped over h = h

  nonempty : (xs : List ScoredPlace) (n : ℕ) → length xs ≡ suc n → is_empty xs ≡ false
  nonempty [] n e = absurd (omega arith)
  nonempty (x ∷ xs) n e = refl

  abbrev IsBudgeted : ℕ → ℕ → OptimizeResult → Type 0
  IsBudgeted left size r = FlagIsExact r × StopsWhenOver left size r

  module _ (s : ScoredPlace) (rest : List ScoredPlace) where
    abbrev matrix : List RouteLeg
    matrix = routing.travel_matrix (day_waypoints base_lat base_lng routing (s ∷ rest))

    abbrev found : List ScoredPlace × ℕ × List RouteLeg
    found = best_order (s ∷ rest) (legs_to_lookup matrix)

    length-found : length found.0 ≡ suc (length rest)
    length-found = length-perm (best_order-least (legs_to_lookup matrix) s rest).0

    -- The `return` under the budget or with one stop left.
    last_stop :
        (leb found.1 max_daily_travel_min || is_empty rest) ≡ true
        → (not (is_empty found.0) && not (leb found.1 max_daily_travel_min)) ≡ true
        → length rest ≡ 0
    last_stop h k = ground arith

    return-IsBudgeted :
        (left : ℕ) (dropped : List DroppedStop)
        → (leb found.1 max_daily_travel_min || is_empty rest) ≡ true
        → IsBudgeted left (suc (length rest)) (
            finish base_lat base_lng routing found.0 matrix found.1 dropped
              (not (is_empty found.0) && not (leb found.1 max_daily_travel_min)))
    return-IsBudgeted left dropped h = (
      finish-FlagIsExact found.0 matrix found.1 dropped _ refl,
      finish-StopsWhenOver left (suc (length rest)) found.0 matrix found.1 dropped _
          (λ k. inl (omega (arith, last_stop h k, length-found))),
    )

  exhausted-IsBudgeted :
      (s : ScoredPlace) (rest : List ScoredPlace) (dropped : List DroppedStop)
      → (leb (found s rest).1 max_daily_travel_min || is_empty rest) ≡ false
      → IsBudgeted 0 (suc (length rest)) (
          finish base_lat base_lng routing
            (found s rest).0
            (matrix s rest)
            (found s rest).1
            dropped
            true)
  exhausted-IsBudgeted s rest dropped h =
      let e = nonempty (found s rest).0 (length rest) (length-found s rest) in
      (
        finish-FlagIsExact (found s rest).0 (matrix s rest) (found s rest).1 dropped true
            (ground (arith, e)),
        finish-StopsWhenOver 0 (suc (length rest)) (found s rest).0 (matrix s rest) (found s rest).1
            dropped true (λ k. inr (omega (arith, length-found s rest))),
      )

  shift :
      (left n fewer size : ℕ)
      → fewer + 1 ≤ size
      → (n ≤ 1) ⊎ (n + left ≤ fewer)
      → (n ≤ 1) ⊎ (n + suc left ≤ size)
  shift left n fewer size h (inl a) = inl a
  shift left n fewer size h (inr b) = inr (omega arith)

  optimize_from-IsBudgeted :
      (left : ℕ) (remaining : List ScoredPlace) (dropped : List DroppedStop)
      → IsBudgeted left (length remaining) (optimized left remaining dropped)
  unfolding optimize_from
  optimize_from-IsBudgeted left [] dropped = (refl, λ h. cc)
  optimize_from-IsBudgeted zero (s ∷ rest) dropped =
      if_cases (IsBudgeted 0 (suc (length rest))) _ (return-IsBudgeted s rest 0 dropped)
        (exhausted-IsBudgeted s rest dropped)
  optimize_from-IsBudgeted (suc left) (s ∷ rest) dropped =
      let victim = pick_lowest_scored s rest in
      let fewer = without victim (s ∷ rest) in
      let (flag, stops) = optimize_from-IsBudgeted left fewer (dropped ++ drop_stop victim ∷ []) in
      if_cases (IsBudgeted (suc left) (suc (length rest))) _
        (return-IsBudgeted s rest (suc left) dropped)
        (λ _. (
          flag,
          λ over.
              shift left _ (length fewer) (suc (length rest))
                (length-without victim (s ∷ rest) (pick-HasVictim s rest)) (stops over),
        ))

  few : (n size : ℕ) → size ≤ 6 → (n ≤ 1) ⊎ (n + 5 ≤ size) → n ≤ 1
  few n size h (inl a) = a
  few n size h (inr b) = omega arith

  -- For a day of at most 6 stops, the flag `still_over_budget` tells exactly whether the travel time
  -- of the result is over 180 minutes, and where it is at most one stop is left.
  pub optimize_route-budget :
      (day_places : List ScoredPlace)
      → length day_places ≤ max_places_per_day
      → FlagIsExact (optimize_route base_lat base_lng routing day_places)
        × ((optimize_route base_lat base_lng routing day_places).still_over_budget ≡ true
            → length (optimize_route base_lat base_lng routing day_places).ordered ≤ 1)
  unfolding optimize_route
  optimize_route-budget [] h = (refl, λ e. omega arith)
  optimize_route-budget (s ∷ rest) h =
      let (flag, stops) = optimize_from-IsBudgeted max_route_drop_attempts (s ∷ rest) [] in
      (flag, λ over. few _ (suc (length rest)) h (stops over))
