-- ===== src/Planner/Replanning/Dropped.antt =====
-- src/planner/tools/drop_weakest_stop.py: the plan that is built without the weakest stop.
use agentic_guide_system.Prelude.{
  ℕ, suc, ◌≤◌, ◌≡◌, refl, sym, ap, ◌∙◌, subst, Bool, true, false, String, Option, none, some, List,
  [], ◌∷◌, ◌++◌, length, is_empty, ◌==◌, count_by, sum_by, All, arith, some-eq-some, if◌then◌else◌,
}
use agentic_guide_system.Prelude.Int.{ℤ}
use agentic_guide_system.Travel.Places.{ScoredPlace}
use agentic_guide_system.Travel.Days.{Geometry}
use agentic_guide_system.Travel.Days.Closing.{total}
use agentic_guide_system.Travel.Days.Overflow.{allocate_days-total}
use agentic_guide_system.Travel.Routing.{RoutingProvider}
use agentic_guide_system.Travel.Route.{pick_lowest_scored, without}
use agentic_guide_system.Travel.Route.Kept.{optimize_route-Keeps}
use agentic_guide_system.Planner.Schemas.{RouteDay, ScheduleDay, ToolResult}
use agentic_guide_system.Planner.State.{TravelState}
use agentic_guide_system.Planner.Orchestration.{entries_of, merge_entries, merge_entry}
use agentic_guide_system.Planner.Tools.{
  built, build_route, route_day, route_days, places_to_route, days_or_three,
}
use agentic_guide_system.Planner.Tools.Results.{
  IsRouted, some_days, build_route-allocated, route_days-IsRouted,
}
use agentic_guide_system.Planner.Scheduling.{schedule_days}
use agentic_guide_system.Planner.Replanning.Weakest.{
  IsWorst, IsWeakest, worst_day-IsWorst, pick_lowest_scored-IsWeakest,
}
use agentic_guide_system.Planner.Replanning.{
  state_view, schedule_result, build_schedule_on_view, rebuilt, worst_day, places_without,
  rebuild_with, rebuild, drop_notes, drop_from, drop_on, drop_weakest_stop,
}

-- How many stops of a route have a property.
abbrev pub stops_with : (ScoredPlace → Bool) → List RouteDay → ℕ
stops_with p route = sum_by (λ day. count_by p day.ordered) route

abbrev pub has_id : ℕ → ScoredPlace → Bool
has_id id s = s.place.id == id

route_days-stops :
    (p : ScoredPlace → Bool) (routing : RoutingProvider) (base : ℤ × ℤ)
    (days : List (List ScoredPlace))
    → stops_with p (route_days routing base days) ≤ total p days
unfolding route_days route_day
route_days-stops p routing (lat, lng) [] = omega arith
route_days-stops p routing (lat, lng) (day ∷ days) =
    omega (
      arith,
      optimize_route-Keeps p lat lng routing day,
      route_days-stops p routing (lat, lng) days,
    )

without-none :
    (victim : ScoredPlace) (xs : List ScoredPlace)
    → count_by (has_id victim.place.id) (without victim xs) ≡ 0
without-none victim [] = refl
without-none victim (x ∷ xs) = ground (arith, without-none victim xs)

module _ (geo : Geometry) (routing : RoutingProvider) (base : ℤ × ℤ) (raw_words : List String) where
  -- A new plan from ranked places: what build_route makes of them, in a state that keeps them.
  pub record IsReplanned (ranked : List ScoredPlace) (st after : TravelState) : Type 0 where
    pub ranked_places : after.ranked_pois ≡ ranked
    pub days : length after.route ≡ days_or_three st.days
    pub scheduled : schedule_days 1 after.route ≡ some after.schedule
    pub routed : All IsRouted after.route
    pub stops : (p : ScoredPlace → Bool) → stops_with p after.route ≤ count_by p ranked

  -- What drop_weakest_stop writes for a new plan, with the schedule of the new route.
  abbrev new_plan : List ScoredPlace → List RouteDay → Option (List ScheduleDay) → Option ToolResult
  new_plan ranked route schedule =
      rebuilt
        (entries_of (built ranked route).payload
          ++ drop_notes geo (some routing) (some base) raw_words)
        (built ranked route).fallback_used (schedule_result schedule)

  on_view-routed :
      (st : TravelState) (n : ℕ)
      → length st.route ≡ suc n
      → build_schedule_on_view st ≡ schedule_result (schedule_days 1 st.route)
  unfolding build_schedule_on_view
  on_view-routed st n e = rw (not_empty st.route e) refl
    where
      not_empty : (route : List RouteDay) → length route ≡ suc n → is_empty route ≡ false
      not_empty [] h = ground arith
      not_empty (day ∷ days) h = refl

  rebuild-built :
      (st : TravelState) (ranked : List ScoredPlace) (route : List RouteDay) (n : ℕ)
      → build_route geo (some routing) (some base) raw_words st ≡ some (built ranked route)
      → length route ≡ suc n
      → rebuild geo
          (some routing)
          (some base)
          raw_words
          st
          (drop_notes geo (some routing) (some base) raw_words)
        ≡ new_plan ranked route (schedule_days 1 route)
  unfolding rebuild rebuild_with state_view built
  rebuild-built st ranked route n e count =
      let merged =
        entries_of (built ranked route).payload
        ++ drop_notes geo (some routing) (some base) raw_words in
      rw (e, on_view-routed (state_view st merged) n count) refl

  module _ (ranked : List ScoredPlace) (route : List RouteDay) (st : TravelState)
      (count : length route ≡ days_or_three st.days) (routed : All IsRouted route)
      (fewer : (p : ScoredPlace → Bool) → stops_with p route ≤ count_by p ranked) where
    new_plan-IsReplanned :
        (schedule : Option (List ScheduleDay)) {result : ToolResult}
        → schedule_days 1 route ≡ schedule
        → new_plan ranked route schedule ≡ some result
        → (result.ok ≡ true) × IsReplanned ranked st (merge_entries st (entries_of result.payload))
    unfolding rebuilt built schedule_result merge_entries merge_entry
    new_plan-IsReplanned none made h = cc
    new_plan-IsReplanned (some schedule) made h =
        let e = some-eq-some _ _ h in
        rw (← e) (
          refl,
          record {
            ranked_places = refl;
            days = count;
            scheduled = made;
            routed = routed;
            stops = fewer;
          },
        )

  drop_weakest_stop-rebuild :
      (st : TravelState) (first : RouteDay) (days : List RouteDay) (s t : ScoredPlace)
      (rest : List ScoredPlace)
      → st.route ≡ first ∷ days
      → (worst_day first days).ordered ≡ s ∷ t ∷ rest
      → drop_weakest_stop geo (some routing) (some base) raw_words st
        ≡ rebuild geo
            (some routing)
            (some base)
            raw_words
            (record st {
              ranked_pois = places_without (pick_lowest_scored s (t ∷ rest)) (s ∷ t ∷ rest) st;
            })
            (drop_notes geo (some routing) (some base) raw_words)
  unfolding drop_weakest_stop drop_on drop_from
  drop_weakest_stop-rebuild st first days s t rest e f = rw (e, f) refl

  places_without-none :
      (victim : ScoredPlace) (ordered : List ScoredPlace) (st : TravelState)
      → count_by (has_id victim.place.id) (places_without victim ordered st) ≡ 0
  unfolding places_without
  places_without-none victim ordered st =
      without-none victim (if is_empty st.ranked_pois then ordered else st.ranked_pois)

  within :
      (p : ScoredPlace → Bool) (days : List (List ScoredPlace)) (selected : List ScoredPlace)
      → total p days ≤ count_by p selected
      → stops_with p (route_days routing base days) ≤ count_by p selected
  within p days selected h = omega (arith, route_days-stops p routing base days)

  rebuild-IsReplanned :
      (st : TravelState) (ranked : List ScoredPlace) {result : ToolResult}
      → is_empty ranked ≡ false
      → rebuild geo
          (some routing)
          (some base)
          raw_words
          (record st { ranked_pois = ranked })
          (drop_notes geo (some routing) (some base) raw_words)
        ≡ some result
      → (result.ok ≡ true) × IsReplanned ranked st (merge_entries st (entries_of result.payload))
  unfolding places_to_route
  rebuild-IsReplanned st ranked {result} some_left h =
      let st' : TravelState = record st { ranked_pois = ranked } in
      let same : places_to_route raw_words st' ≡ ranked = rw some_left refl in
      let (days, allocated, made, count, fits) =
        build_route-allocated geo routing base raw_words st' (ap is_empty same ∙ some_left) in
      let route = route_days routing base days in
      let (routed, kept) = route_days-IsRouted routing base days fits in
      let (n, some_day) = some_days st.days in
      let made' =
        subst
          (λ (r : List ScoredPlace).
            build_route geo (some routing) (some base) raw_words st' ≡ some (built r route))
          same made in
      let plan = rebuild-built st' ranked route n made' (kept ∙ count ∙ some_day) in
      let fewer : (p : ScoredPlace → Bool) → stops_with p route ≤ count_by p ranked = λ p.
        subst (λ (r : List ScoredPlace). stops_with p route ≤ count_by p r) same
          (within p days (places_to_route raw_words st') (
            allocate_days-total geo (places_to_route raw_words st') (days_or_three st.days) p
              allocated)) in
      new_plan-IsReplanned ranked route st (kept ∙ count) routed fewer (schedule_days 1 route) refl
        (sym plan ∙ h)

  -- The chosen day is one with the most travel, and the stop that is dropped is one of its stops with the
  -- lowest score. With a routing provider and base coordinates, where that day has two stops at
  -- least and ranked places are left without that stop, a result of
  -- drop_weakest_stop is a success. The plan that it writes has a routed day for each day of the trip,
  -- with its schedule. It has no stop with the id of the dropped one, and the places that are left are
  -- its ranked places, none of which it visits more often than it is ranked.
  pub drop_weakest_stop-IsReplanned :
      (st : TravelState) (first : RouteDay) (days : List RouteDay) (s t : ScoredPlace)
      (rest : List ScoredPlace) {result : ToolResult}
      → st.route ≡ first ∷ days
      → (worst_day first days).ordered ≡ s ∷ t ∷ rest
      → is_empty (places_without (pick_lowest_scored s (t ∷ rest)) (s ∷ t ∷ rest) st) ≡ false
      → drop_weakest_stop geo (some routing) (some base) raw_words st ≡ some result
      → IsWorst (first ∷ days) (worst_day first days)
        × IsWeakest (worst_day first days).ordered (pick_lowest_scored s (t ∷ rest))
        × (result.ok ≡ true)
        × IsReplanned
            (places_without (pick_lowest_scored s (t ∷ rest)) (s ∷ t ∷ rest) st)
            st
            (merge_entries st (entries_of result.payload))
        × (stops_with
              (has_id (pick_lowest_scored s (t ∷ rest)).place.id)
              (merge_entries st (entries_of result.payload)).route
            ≡ 0)
  drop_weakest_stop-IsReplanned st first days s t rest {result} e f some_left h =
      let victim = pick_lowest_scored s (t ∷ rest) in
      let (ok, plan) =
        rebuild-IsReplanned st (places_without victim (s ∷ t ∷ rest) st) some_left
          (sym (drop_weakest_stop-rebuild st first days s t rest e f) ∙ h) in
      (
        worst_day-IsWorst first days,
        subst (λ (stops : List ScoredPlace). IsWeakest stops victim) (sym f)
            (pick_lowest_scored-IsWeakest s (t ∷ rest)),
        ok,
        plan,
        omega (
          arith,
          plan.stops (has_id victim.place.id),
          places_without-none victim (s ∷ t ∷ rest) st,
        ),
      )
