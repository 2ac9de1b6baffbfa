-- ===== src/Trips/Edits/Stored/Whole.antt =====
-- src/trips/service.py: an edit as a whole refines the abstract edit of a day; the rows it writes are
-- for distinct places, since the validation found no place twice.
use agentic_guide_system.Prelude.{
  ℕ, suc, ◌≤◌, ◌≡◌, refl, ap, subst, inl, inr, Option, none, some, true, List, [], ◌∷◌, is_empty,
  ◌==◌, ==_iff, arith, Bool-cases, String,
}
use agentic_guide_system.Prelude.Dict.{Dict, get, pair_eq}
use agentic_guide_system.Prelude.Result.{ok, >>=-eq-ok, ok-eq-ok}
use agentic_guide_system.Travel.Routing.{RouteLeg, RoutingProvider, legs_to_lookup}
use agentic_guide_system.Travel.Rules.{base_sentinel_id}
use agentic_guide_system.Travel.Route.{Lookup}
use agentic_guide_system.Travel.Schedule.{ScheduledStop}
use agentic_guide_system.Travel.Validator.{DayPlan, TripItinerary}
use agentic_guide_system.Travel.Validator.Repeats.{occurs, occurs_in_days}
use agentic_guide_system.Trips.{EditType, StopRow, LoadedTrip}
use agentic_guide_system.Trips.Repository.{Session, find_by}
use agentic_guide_system.Trips.Days.{
  travel_into_stop, places_for_day, day_plan_from_scheduled, day_plan_from_stored,
}
use agentic_guide_system.Trips.Plans.{days_present, collect_days, contains_id}
use agentic_guide_system.Trips.Edits.{
  EditRequest, requested_type, run_edit, scheduled_rows, edit_rows,
}
use agentic_guide_system.Trips.Edits.Planned.{days_present-contains}
use agentic_guide_system.Trips.Edits.Validated.{IsAccepted, IsSound, run_edit-IsSound}
use agentic_guide_system.Trips.Edits.Stored.{IsTable, row_for, HasDistinctPlaces}
use agentic_guide_system.Trips.Edits.Stored.Refines.{IsStored, persist_day_and_audit-IsStored}

-- The new day is among the plans.
collect_days-occurs :
    (trip : LoadedTrip) (mutated : ℕ) (new_day : DayPlan) (days : List ℕ) (pid : ℕ)
    {plans : List DayPlan}
    → collect_days trip mutated new_day days ≡ ok plans
    → contains_id days mutated ≡ true
    → occurs pid new_day.stops ≤ occurs_in_days pid plans
unfolding collect_days
collect_days-occurs trip mutated new_day [] pid e h = cc
collect_days-occurs trip mutated new_day (day ∷ days) pid {plans} e h =
    elim (Bool-cases (day == mutated)) [
      | inl same ↦
          let (others, _, e') =
            >>=-eq-ok (collect_days trip mutated new_day days) _ (rw same at e) in
          omega (arith, ap (occurs_in_days pid) (ok-eq-ok e'))
      | inr other ↦
          let in_rest : contains_id days mutated ≡ true = rw other at h in
          elim (Bool-cases (is_empty (places_for_day trip day))) [
            | inl no_stops ↦
                collect_days-occurs trip mutated new_day days pid (rw (other, no_stops) at e)
                  in_rest
            | inr stops ↦
                let (plan, _, e') =
                  >>=-eq-ok (day_plan_from_stored (places_for_day trip day)) _
                    (rw (other, stops) at e) in
                let (others, collected, e'') =
                  >>=-eq-ok (collect_days trip mutated new_day days) _ e' in
                omega (
                  arith,
                  collect_days-occurs trip mutated new_day days pid collected in_rest,
                  ap (occurs_in_days pid) (ok-eq-ok e''),
                )
          ]
    ]

scheduled_rows-alone :
    (lookup : Lookup) (poly_map : Dict ℕ (Option String)) (day order prev q : ℕ)
    (stops : List ScheduledStop)
    → occurs q stops ≡ 0
    → row_for q (scheduled_rows lookup poly_map day order prev stops) ≡ none
unfolding scheduled_rows find_by
scheduled_rows-alone lookup poly_map day order prev q [] e = refl
scheduled_rows-alone lookup poly_map day order prev q (stop ∷ stops) e =
    elim (Bool-cases (stop.place.id == q)) [
      | inl same ↦ ground arith
      | inr other ↦ rw other (
          scheduled_rows-alone lookup poly_map day (suc order) stop.place.id q stops
            (rw other at e))
    ]

scheduled_rows-HasDistinctPlaces :
    (lookup : Lookup) (poly_map : Dict ℕ (Option String)) (day order prev : ℕ)
    (stops : List ScheduledStop)
    → ((q : ℕ) → occurs q stops ≤ 1)
    → HasDistinctPlaces (scheduled_rows lookup poly_map day order prev stops)
unfolding scheduled_rows
scheduled_rows-HasDistinctPlaces lookup poly_map day order prev [] h = tt
scheduled_rows-HasDistinctPlaces lookup poly_map day order prev (stop ∷ stops) h =
    let once = h stop.place.id in
    let here = (==_iff stop.place.id stop.place.id).1 refl in
    (
      scheduled_rows-alone lookup poly_map day (suc order) stop.place.id stop.place.id stops
          (ground (arith, once, here)),
      scheduled_rows-HasDistinctPlaces lookup poly_map day (suc order) stop.place.id stops
          (λ q. ground (arith, h q)),
    )

abbrev pub minutes_of : Option RouteLeg → ℕ
minutes_of none = 0
minutes_of (some leg) = leg.duration_min

-- The row of a scheduled stop: its place and times, its day, its number in the day, and the minutes
-- of the leg into it, none where there is no leg.
pub record IsRowFor (lookup : Lookup) (day order prev : ℕ) (stop : ScheduledStop) (row : StopRow)
    : Type 0 where
  pub place : row.place_id ≡ stop.place.id
  pub day_number : row.day_number ≡ day
  pub number : row.order_in_day ≡ order
  pub travel : row.travel_time_min ≡ minutes_of (get lookup (prev, stop.place.id))
  pub visit : row.visit_duration_min ≡ stop.visit_duration
  pub start : row.suggested_start_time ≡ some stop.suggested_start_time
  pub note : row.arrival_note ≡ stop.arrival_note

-- One row for each stop, in their order and numbered along it.
abbrev pub AreNumbered : Lookup → ℕ → ℕ → ℕ → List ScheduledStop → List StopRow → Type 0
AreNumbered lookup day order prev [] [] = Unit
AreNumbered lookup day order prev (stop ∷ stops) (row ∷ rows) =
    IsRowFor lookup day order prev stop row
    × AreNumbered lookup day (suc order) stop.place.id stops rows
AreNumbered lookup day order prev _ _ = ⊥

scheduled_rows-AreNumbered :
    (lookup : Lookup) (poly_map : Dict ℕ (Option String)) (day order prev : ℕ)
    (stops : List ScheduledStop)
    → AreNumbered lookup day order prev stops (scheduled_rows lookup poly_map day order prev stops)
unfolding scheduled_rows travel_into_stop
scheduled_rows-AreNumbered lookup poly_map day order prev [] = tt
scheduled_rows-AreNumbered lookup poly_map day order prev (stop ∷ stops) = (
  record {
    place = refl;
    day_number = refl;
    number = refl;
    travel = into (get lookup (prev, stop.place.id));
    visit = refl;
    start = refl;
    note = refl;
  },
  scheduled_rows-AreNumbered lookup poly_map day (suc order) stop.place.id stops,
)
  where
    into :
        (leg : Option RouteLeg) → elim leg [ none ↦ 0 | some l ↦ l.duration_min ] ≡ minutes_of leg
    into none = refl
    into (some l) = refl

module _ (dev : List ScheduledStop → ℕ) (routing : RoutingProvider) where
  accepted-repeats :
      (edit_type : EditType) (itinerary : TripItinerary)
      → IsAccepted dev edit_type itinerary
      → (pid : ℕ) → occurs_in_days pid itinerary.days ≤ 1
  accepted-repeats EditType.reorder itinerary a = a.repeats
  accepted-repeats EditType.remove_stop itinerary a = a.repeats
  accepted-repeats EditType.add_stop itinerary a = a.repeats
  accepted-repeats EditType.reoptimize_day itinerary a = a.repeats

  sound-HasDistinctPlaces :
      (trip_id day user_id : ℕ) (edit_type : EditType) (s s' : Session) (trip : LoadedTrip)
      (sound : IsSound dev routing trip_id day user_id edit_type s s' trip)
      → HasDistinctPlaces (edit_rows sound.edit)
  unfolding edit_rows day_plan_from_scheduled
  sound-HasDistinctPlaces trip_id day user_id edit_type s s' trip sound =
      let edit = sound.edit in
      let new_day = day_plan_from_scheduled edit.scheduled edit.legs in
      scheduled_rows-HasDistinctPlaces _ _ edit.day 1 _ edit.scheduled (λ q. omega (
        arith,
        collect_days-occurs edit.trip day new_day (days_present day edit.trip.places) q
            sound.collected (days_present-contains day edit.trip.places),
        accepted-repeats edit_type (record { days = sound.plans }) sound.accepted q,
      ))

  -- In a table of stops where the constraint holds, an edit of any kind that gives a trip refines the
  -- abstract edit of the day by the rows that it decided on: in the committed state, each scheduled
  -- place has its row, the other stops of the day are gone, the stops of other days and other trips are
  -- as before, and one event records the edit. The rows are those of the schedule's stops in their
  -- order: each has the place, the edited day, its number from 1 on, the minutes of the leg from the
  -- stop before, and the visit, start and note of the stop.
  pub run_edit-IsStored :
      (request : EditRequest) (trip_id day user_id : ℕ) (s : Session) {s' : Session}
      {trip : LoadedTrip}
      → IsTable s.current.trip_places
      → run_edit dev routing request trip_id day user_id s ≡ (ok trip, s')
      → (sound : IsSound dev routing trip_id day user_id (requested_type request) s s' trip)
        × IsStored sound.edit s.current s'.committed
        × AreNumbered
            (legs_to_lookup sound.edit.legs)
            day
            1
            base_sentinel_id
            sound.edit.scheduled
            (edit_rows sound.edit)
  unfolding edit_rows
  run_edit-IsStored request trip_id day user_id s {s'} {trip} h e =
      let sound = run_edit-IsSound dev routing request trip_id day user_id s e in
      let edit = sound.edit in
      (
        sound,
        persist_day_and_audit-IsStored sound.edit s sound.owned.trip sound.owned.stops h
            (sound-HasDistinctPlaces trip_id day user_id (requested_type request) s s' trip sound)
            sound.persisted,
        subst
            (λ (d : ℕ).
              AreNumbered (legs_to_lookup edit.legs) d 1 base_sentinel_id edit.scheduled
                (edit_rows edit))
            sound.decided.same_day
            (scheduled_rows-AreNumbered (legs_to_lookup edit.legs) _ edit.day 1 base_sentinel_id
              edit.scheduled),
      )
