-- ===== src/Planner/Tools/Results.antt =====
-- src/planner/tools: what the results of the tools say of the travel engine's work.
use agentic_guide_system.Prelude.{
  ℕ, zero, suc, ◌≤◌, ◌≡◌, ◌↔◌, refl, sym, ap, ◌∙◌, true, false, not, Option, none, some, String,
  List, [], ◌∷◌, length, is_empty, leb, All, some-eq-some,
}
use agentic_guide_system.Prelude.Int.{ℤ, pos}
use agentic_guide_system.Travel.Rules.{max_daily_travel_min}
use agentic_guide_system.Travel.Places.{ScoredPlace}
use agentic_guide_system.Travel.Days.{Geometry, allocate_days}
use agentic_guide_system.Travel.Days.Budget.{FitsDay, allocate_days-FitsDay}
use agentic_guide_system.Travel.Routing.{RoutingProvider}
use agentic_guide_system.Travel.Route.Dropping.{optimize_route-budget}
use agentic_guide_system.Travel.Schedule.{ScheduledStop}
use agentic_guide_system.Travel.Validator.{ValidationResult, TripItinerary, validate_trip}
use agentic_guide_system.Travel.Validator.Verdict.{IsValidTrip, validate_trip-Passes}
use agentic_guide_system.Planner.Schemas.{RouteDay, ToolResult}
use agentic_guide_system.Planner.State.{TravelState}
use agentic_guide_system.Planner.Tools.Plans.{ArePlansOf, day_plans-ArePlansOf}
use agentic_guide_system.Planner.Tools.{
  route_day, route_days, built, build_allocated, build_route, places_to_route,
  preferences_from_state, days_or_three, day_plans, outcome_of, validation_outcome,
  validate_itinerary,
}

-- The itinerary that the schedule and the route of a state make.
abbrev pub itinerary_of : TravelState → TripItinerary
itinerary_of st = record { days = day_plans st.schedule st.route }

outcome_of-Passes :
    (answer : Option ValidationResult)
    → ((r : ToolResult) × (outcome_of answer ≡ some r) × (r.ok ≡ true))
      ↔ ((v : ValidationResult) × (answer ≡ some v) × (v.passed ≡ true))
unfolding validation_outcome
outcome_of-Passes none = ((λ (r, e, p). cc), (λ (v, e, p). cc))
outcome_of-Passes (some v) = (
  (λ (r, e, p). (v, refl, ap (λ t. t.ok) (some-eq-some (validation_outcome v) r e) ∙ p)),
  (λ (w, e, p). (validation_outcome v, refl, ap (λ t. t.passed) (some-eq-some v w e) ∙ p)),
)

-- The days that validate_itinerary looks at have, day by day, the stops with their times and the travel
-- of the state's schedule, that of the route where this is none, and the dropped stops of the route. It
-- succeeds exactly when they are a valid trip.
pub validate_itinerary-IsValidTrip :
    (dev : List ScheduledStop → ℕ) (st : TravelState)
    → ArePlansOf st.schedule st.route (itinerary_of st).days
      × (((r : ToolResult) × (validate_itinerary dev st ≡ some r) × (r.ok ≡ true))
          ↔ IsValidTrip dev (itinerary_of st))
unfolding validate_itinerary
validate_itinerary-IsValidTrip dev st =
    let outcome = outcome_of-Passes (validate_trip dev (itinerary_of st)) in
    let verdict = validate_trip-Passes dev (itinerary_of st) in
    (
      day_plans-ArePlansOf st.schedule st.route,
      ((λ h. verdict.0 (outcome.0 h)), λ v. outcome.1 (verdict.1 v)),
    )

-- A day of the route: the flag tells whether the travel is over the cap, and where it is at most one
-- stop is left.
abbrev pub IsRouted : RouteDay → Type 0
IsRouted day =
    (day.still_over_budget ≡ not (leb day.total_travel_min max_daily_travel_min))
    × (day.still_over_budget ≡ true → length day.ordered ≤ 1)

pub route_days-IsRouted :
    (routing : RoutingProvider) (base : ℤ × ℤ) (days : List (List ScoredPlace))
    → All FitsDay days
    → All IsRouted (route_days routing base days)
      × (length (route_days routing base days) ≡ length days)
unfolding route_days route_day
route_days-IsRouted routing (lat, lng) [] h = (tt, refl)
route_days-IsRouted routing (lat, lng) (day ∷ days) h =
    let rest = route_days-IsRouted routing (lat, lng) days h.1 in
    ((optimize_route-budget lat lng routing day h.0.places, rest.0), ap suc rest.1)

pub some_days : (d : ℕ) → (n : ℕ) × (days_or_three d ≡ suc n)
some_days zero = (2, refl)
some_days (suc d) = (d, refl)

-- The days that build_route allocates, and what it makes of them.
pub build_route-allocated :
    (geo : Geometry) (routing : RoutingProvider) (base : ℤ × ℤ) (raw_words : List String)
    (st : TravelState)
    → is_empty (places_to_route raw_words st) ≡ false
    → (days : List (List ScoredPlace)) × (allocate_days geo
          (places_to_route raw_words st)
          (pos (days_or_three st.days))
        ≡ some days)
      × (build_route geo (some routing) (some base) raw_words st
          ≡ some (built (places_to_route raw_words st) (route_days routing base days)))
      × (length days ≡ days_or_three st.days)
      × All FitsDay days
unfolding build_route build_allocated preferences_from_state
build_route-allocated geo routing base raw_words st h =
    let (n, e) = some_days st.days in
    let (days, allocated, count, fits) =
      allocate_days-FitsDay geo (places_to_route raw_words st) n in
    (days, rw e allocated, rw (h, e, allocated) refl, count ∙ sym e, fits)

-- With a routing provider, base coordinates and some place that is ranked or can be ranked, build_route
-- succeeds. It writes the ranked places and a route with as many days as the trip has, three where the
-- state names none, and each day of the route is routed.
pub build_route-IsRouted :
    (geo : Geometry) (routing : RoutingProvider) (base : ℤ × ℤ) (raw_words : List String)
    (st : TravelState)
    → is_empty (places_to_route raw_words st) ≡ false
    → (route : List RouteDay) × (build_route geo (some routing) (some base) raw_words st
        ≡ some (built (places_to_route raw_words st) route))
      × (length route ≡ days_or_three st.days)
      × All IsRouted route
build_route-IsRouted geo routing base raw_words st h =
    let (days, _, made, count, fits) = build_route-allocated geo routing base raw_words st h in
    let (routed, kept) = route_days-IsRouted routing base days fits in
    (route_days routing base days, made, kept ∙ count, routed)
