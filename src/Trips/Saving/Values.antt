-- ===== src/Trips/Saving/Values.antt =====
-- src/trips/service.py: the values that `save_from_state` takes from the state.
use agentic_guide_system.Prelude.{
  ℕ, zero, suc, ◌≡◌, refl, String, Option, none, some, Bool, true, false, not, ◌&&◌, List, [], ◌∷◌,
  ◌++◌, map, ◌==◌, arith, if◌then◌else◌,
}
use agentic_guide_system.Prelude.Int.{ℤ}
use agentic_guide_system.Planner.Schemas.{FlatStop, ScheduleDay}
use agentic_guide_system.Planner.State.{TravelState}
use agentic_guide_system.Trips.{Json, null, number, Preferences, TripStatus, StopRow}
use agentic_guide_system.Trips.Saving.{
  trip_status, coerce_base_float, with_base, preferences_from_state, place_rows, stop_row,
}

-- The status of a trip by the flags of the state: complete, and not aborted.
abbrev pub status_for : Bool → Bool → TripStatus
status_for true false = TripStatus.complete
status_for false false = TripStatus.draft
status_for complete true = TripStatus.failed

-- The stops of a schedule with the numbers of their days.
abbrev pub stops_of : List ScheduleDay → List (ℕ × FlatStop)
stops_of [] = []
stops_of (day ∷ days) = map (λ stop. (day.day, stop)) day.stops ++ stops_of days

-- A missing visit takes an hour.
abbrev pub or_hour : ℕ → ℕ
or_hour zero = 60
or_hour (suc n) = suc n

-- The stop of a schedule as a row of the table.
pub record IsRowOf (day : ℕ) (stop : FlatStop) (row : StopRow) : Type 0 where
  pub place : row.place_id ≡ stop.place.id
  pub day_number : row.day_number ≡ day
  pub order : row.order_in_day ≡ stop.order
  pub travel : row.travel_time_min ≡ stop.travel_time_min
  pub visit : row.visit_duration_min ≡ or_hour stop.visit_duration_min
  pub start : row.suggested_start_time ≡ some stop.suggested_start_time
  pub note : row.arrival_note ≡ stop.arrival_note
  pub line : row.polyline ≡ stop.leg_polyline

-- One row for each stop, in their order.
abbrev pub AreRowsOf : List (ℕ × FlatStop) → List StopRow → Type 0
AreRowsOf [] [] = Unit
AreRowsOf (stop ∷ stops) (row ∷ rows) = IsRowOf stop.0 stop.1 row × AreRowsOf stops rows
AreRowsOf _ _ = ⊥

-- The preferences of the state; the base is there where both coordinates are numbers or texts of
-- numbers.
abbrev pub base_for : Option ℤ → Option ℤ → Json × Json
base_for (some lat) (some lng) = (number lat, number lng)
base_for (some lat) none = (null, null)
base_for none lng = (null, null)

pub record IsPreferred (parse_float : String → Option ℤ) (state : TravelState)
    (base_lat base_lng : Json) (preferences : Preferences) : Type 0 where
  pub interests : preferences.interests ≡ state.interests
  pub budget : preferences.budget ≡ state.budget
  pub offbeat : preferences.include_offbeat ≡ state.include_offbeat
  pub trekking : preferences.include_trekking ≡ state.include_trekking
  pub base :
      (preferences.base_lat, preferences.base_lng)
      ≡ base_for (coerce_base_float parse_float base_lat) (coerce_base_float parse_float base_lng)

pub preferences_from_state-IsPreferred :
    (parse_float : String → Option ℤ) (state : TravelState) (base_lat base_lng : Json)
    → IsPreferred parse_float state base_lat base_lng
        (preferences_from_state parse_float state base_lat base_lng)
unfolding preferences_from_state
preferences_from_state-IsPreferred parse_float state base_lat base_lng =
    let (interests, budget, offbeat, trekking, base) =
      by_base (coerce_base_float parse_float base_lat) (coerce_base_float parse_float base_lng) in
    record {
      interests = interests;
      budget = budget;
      offbeat = offbeat;
      trekking = trekking;
      base = base;
    }
  where
    plain : Preferences
    plain = record {
      interests = state.interests;
      budget = state.budget;
      include_offbeat = state.include_offbeat;
      include_trekking = state.include_trekking;
      base_lat = null;
      base_lng = null;
    }

    by_base :
        (lat lng : Option ℤ)
        → ((with_base parse_float lat lng plain).interests ≡ state.interests)
          × ((with_base parse_float lat lng plain).budget ≡ state.budget)
          × ((with_base parse_float lat lng plain).include_offbeat ≡ state.include_offbeat)
          × ((with_base parse_float lat lng plain).include_trekking ≡ state.include_trekking)
          × ((
            (with_base parse_float lat lng plain).base_lat,
            (with_base parse_float lat lng plain).base_lng,
          )
              ≡ base_for lat lng)
    by_base (some lat) (some lng) = (refl, refl, refl, refl, refl)
    by_base (some lat) none = (refl, refl, refl, refl, refl)
    by_base none lng = (refl, refl, refl, refl, refl)

pub trip_status-eq :
    (state : TravelState) → trip_status state ≡ status_for state.plan_complete state.abort_triggered
unfolding trip_status
trip_status-eq state = by_flags state.plan_complete state.abort_triggered
  where
    by_flags :
        (complete aborted : Bool)
        → (if complete && not aborted
            then TripStatus.complete
            else if aborted
            then TripStatus.failed
            else TripStatus.draft)
          ≡ status_for complete aborted
    by_flags true true = refl
    by_flags true false = refl
    by_flags false true = refl
    by_flags false false = refl

or_hour-eq : (n : ℕ) → (if n == 0 then 60 else n) ≡ or_hour n
or_hour-eq zero = refl
or_hour-eq (suc n) = ground arith

pub place_rows-AreRowsOf : (days : List ScheduleDay) → AreRowsOf (stops_of days) (place_rows days)
unfolding place_rows stop_row
place_rows-AreRowsOf [] = tt
place_rows-AreRowsOf (day ∷ days) = of_day (place_rows-AreRowsOf days) day.stops
  where
    of_day :
        AreRowsOf (stops_of days) (place_rows days)
        → (stops : List FlatStop)
        → AreRowsOf
            (map (λ stop. (day.day, stop)) stops ++ stops_of days)
            (map (stop_row day.day) stops ++ place_rows days)
    of_day rest [] = rest
    of_day rest (stop ∷ stops) = (
      record {
        place = refl;
        day_number = refl;
        order = refl;
        travel = refl;
        visit = or_hour-eq stop.visit_duration_min;
        start = refl;
        note = refl;
        line = refl;
      },
      of_day rest stops,
    )
