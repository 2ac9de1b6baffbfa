-- ===== src/Planner/Tools/Plans.antt =====
-- src/planner/tools/validate_itinerary.py: the days that are validated, by what the schedule and the
-- route hold of them.
use agentic_guide_system.Prelude.{
  ℕ, zero, suc, ◌≡◌, refl, arith, List, [], ◌∷◌, map, str_eq, if◌then◌else◌, leb, is_empty,
}
use agentic_guide_system.Prelude.Order.{codes}
use agentic_guide_system.Travel.Schedule.{ScheduledStop}
use agentic_guide_system.Travel.Validator.{DayPlan}
use agentic_guide_system.Planner.Schemas.{RouteDay, FlatStop, ScheduleDay}
use agentic_guide_system.Planner.Tools.{scheduled_from_flat, day_plan, day_plans, travel_or}

-- The visited places with their times: nine o'clock where a start is missing, an hour where a visit is.
abbrev pub start_or_nine : List ℕ → List ℕ
start_or_nine [] = codes "09:00"
start_or_nine (c ∷ cs) = c ∷ cs

abbrev pub hour_or : ℕ → ℕ
hour_or zero = 60
hour_or (suc n) = suc n

pub record IsStopOf (flat : FlatStop) (stop : ScheduledStop) : Type 0 where
  pub id : stop.place.id ≡ flat.place.id
  pub lat : stop.place.lat ≡ flat.place.lat
  pub lng : stop.place.lng ≡ flat.place.lng
  pub category :
      stop.place.category
      ≡ (if str_eq flat.place.category "" then "attraction" else flat.place.category)
  pub score : stop.score ≡ flat.score
  pub start : stop.suggested_start_time ≡ start_or_nine flat.suggested_start_time
  pub visit : stop.visit_duration ≡ hour_or flat.visit_duration_min

abbrev pub AreStopsOf : List FlatStop → List ScheduledStop → Type 0
AreStopsOf [] [] = Unit
AreStopsOf (f ∷ flats) (s ∷ stops) = IsStopOf f s × AreStopsOf flats stops
AreStopsOf _ _ = ⊥

-- The travel of a day: that of the schedule, or that of the route where this is none.
abbrev pub travel_of : ℕ → ℕ → ℕ
travel_of zero routed = routed
travel_of (suc n) routed = suc n

-- One plan for each day that the schedule or the route has: the stops and the travel of the schedule's
-- day, and the dropped stops of the route's.
abbrev pub ArePlansOf : List ScheduleDay → List RouteDay → List DayPlan → Type 0
ArePlansOf [] [] [] = Unit
ArePlansOf [] (r ∷ route) (p ∷ plans) =
    (p.stops ≡ [])
    × (p.total_travel_min ≡ r.total_travel_min)
    × (p.dropped_stops ≡ r.dropped_stops)
    × ArePlansOf [] route plans
ArePlansOf (s ∷ schedule) [] (p ∷ plans) =
    AreStopsOf s.stops p.stops
    × (p.total_travel_min ≡ s.total_travel_min)
    × (p.dropped_stops ≡ [])
    × ArePlansOf schedule [] plans
ArePlansOf (s ∷ schedule) (r ∷ route) (p ∷ plans) =
    AreStopsOf s.stops p.stops
    × (p.total_travel_min ≡ travel_of s.total_travel_min r.total_travel_min)
    × (p.dropped_stops ≡ r.dropped_stops)
    × ArePlansOf schedule route plans
ArePlansOf _ _ _ = ⊥

scheduled_from_flat-IsStopOf : (flat : FlatStop) → IsStopOf flat (scheduled_from_flat flat)
unfolding scheduled_from_flat
scheduled_from_flat-IsStopOf flat = record {
  id = refl;
  lat = refl;
  lng = refl;
  category = refl;
  score = refl;
  start = by_start flat.suggested_start_time;
  visit = by_visit flat.visit_duration_min;
}
  where
    by_start :
        (start : List ℕ) → (if is_empty start then codes "09:00" else start) ≡ start_or_nine start
    by_start [] = refl
    by_start (c ∷ cs) = refl

    by_visit : (n : ℕ) → (if leb n 0 then 60 else n) ≡ hour_or n
    by_visit zero = refl
    by_visit (suc n) = ground arith

map-AreStopsOf : (flats : List FlatStop) → AreStopsOf flats (map scheduled_from_flat flats)
map-AreStopsOf [] = tt
map-AreStopsOf (f ∷ flats) = (scheduled_from_flat-IsStopOf f, map-AreStopsOf flats)

travel_or-eq : (n routed : ℕ) → travel_or n routed ≡ travel_of n routed
travel_or-eq zero routed = refl
travel_or-eq (suc n) routed = refl

pub day_plans-ArePlansOf :
    (schedule : List ScheduleDay) (route : List RouteDay)
    → ArePlansOf schedule route (day_plans schedule route)
unfolding day_plans day_plan
day_plans-ArePlansOf [] [] = tt
day_plans-ArePlansOf [] (r ∷ route) = (refl, refl, refl, day_plans-ArePlansOf [] route)
day_plans-ArePlansOf (s ∷ schedule) [] =
    (map-AreStopsOf s.stops, no_route s.total_travel_min, refl, day_plans-ArePlansOf schedule [])
  where
    no_route : (n : ℕ) → travel_or n 0 ≡ n
    no_route zero = refl
    no_route (suc n) = refl
day_plans-ArePlansOf (s ∷ schedule) (r ∷ route) = (
  map-AreStopsOf s.stops,
  travel_or-eq s.total_travel_min r.total_travel_min,
  refl,
  day_plans-ArePlansOf schedule route,
)
