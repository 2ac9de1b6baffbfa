-- ===== src/Trips/Saving.antt =====
-- src/trips/service.py: `save_from_state`, which stores the planner's schedule as a trip. The state
-- holds typed schedules here, so the tests of their shape always pass. The destination and the base
-- stand beside the state, and the parsing of a text as a float is a parameter.
pub mod Values
pub mod Saved
use agentic_guide_system.Prelude.{
  ℕ, String, Option, none, some, Bool, true, false, not, ◌&&◌, List, [], ◌∷◌, ◌++◌, map, any,
  length, is_empty, ◌==◌, if◌then◌else◌,
}
use agentic_guide_system.Prelude.Int.{ℤ}
use agentic_guide_system.Prelude.Result.{Result, ok, err}
use agentic_guide_system.Planner.Schemas.{FlatStop, ScheduleDay}
use agentic_guide_system.Planner.State.{TravelState}
use agentic_guide_system.Trips.{
  TripStatus, Json, Preferences, StopRow, Trip, Store, null, bool, number, text,
}
use agentic_guide_system.Trips.Repository.{
  Db, Session, ◌>>=◌, or_rollback, commit, create_trip, create_trip_places,
}

unfoldable pub trip_status : TravelState → TripStatus
trip_status state =
    if state.plan_complete && not state.abort_triggered
    then TripStatus.complete
    else if state.abort_triggered
    then TripStatus.failed
    else TripStatus.draft

-- Some day has a stop.
unfoldable pub schedule_usable : List ScheduleDay → Bool
schedule_usable schedule = any (λ day. not (is_empty day.stops)) schedule

module _ (parse_float : String → Option ℤ) where
  unfoldable pub coerce_base_float : Json → Option ℤ
  coerce_base_float null = none
  coerce_base_float (bool b) = none
  coerce_base_float (number n) = some n
  coerce_base_float (text s) = parse_float s

  -- Both coordinates are kept, or neither.
  abbrev pub with_base : Option ℤ → Option ℤ → Preferences → Preferences
  with_base (some lat) (some lng) preferences = record preferences {
    base_lat = number lat;
    base_lng = number lng;
  }
  with_base _ _ preferences = preferences

  unfoldable pub preferences_from_state : TravelState → Json → Json → Preferences
  unfolding coerce_base_float
  preferences_from_state state base_lat base_lng =
      with_base (coerce_base_float base_lat) (coerce_base_float base_lng) (record {
        interests = state.interests;
        budget = state.budget;
        include_offbeat = state.include_offbeat;
        include_trekking = state.include_trekking;
        base_lat = null;
        base_lng = null;
      })

-- One stop of the schedule: a visit of no minutes counts as 60.
unfoldable pub stop_row : ℕ → FlatStop → StopRow
stop_row day stop = record {
  place_id = stop.place.id;
  day_number = day;
  order_in_day = stop.order;
  travel_time_min = stop.travel_time_min;
  visit_duration_min = if stop.visit_duration_min == 0 then 60 else stop.visit_duration_min;
  suggested_start_time = some stop.suggested_start_time;
  arrival_note = stop.arrival_note;
  polyline = stop.leg_polyline;
}

unfoldable pub place_rows : List ScheduleDay → List StopRow
unfolding stop_row
place_rows [] = []
place_rows (day ∷ days) = map (stop_row day.day) day.stops ++ place_rows days

-- `repo.create`, in the pending state.
unfoldable pub create_in : Option ℕ → String → ℕ → ℕ → Preferences → TripStatus → Db Trip
unfolding create_trip
create_in user_id session_id destination_id days preferences status s =
    let (trip, store) =
      create_trip user_id session_id destination_id days preferences status s.current in
    (ok trip, record s { current = store })

-- The body of the `try`.
unfoldable pub write_trip :
    Option ℕ → String → ℕ → ℕ → Preferences → TripStatus → List StopRow → Db (Option Trip)
unfolding create_in create_trip_places commit
write_trip user_id session_id destination_id days preferences status rows = do
  trip ← create_in user_id session_id destination_id days preferences status
  _ ← create_trip_places trip.id rows
  _ ← commit
  λ s. (ok (some trip), s)

module _ (parse_float : String → Option ℤ) where
  unfoldable pub save_from_state :
      TravelState → ℕ → Json → Json → Option ℕ → String → Db (Option Trip)
  unfolding schedule_usable preferences_from_state trip_status place_rows write_trip
  save_from_state state destination_id base_lat base_lng user_id session_id s =
      let rows = place_rows state.schedule in
      let saved =
        or_rollback
          (write_trip user_id session_id destination_id (length state.schedule)
            (preferences_from_state parse_float state base_lat base_lng) (trip_status state) rows)
          s in
      if not (schedule_usable state.schedule)
      then (ok none, s)
      else if is_empty rows
      then (ok none, s)
      else saved
