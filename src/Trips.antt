-- ===== src/Trips.antt =====
-- src/trips/models.py and src/trips/exceptions.py: trips with their stops, the audit of their edits,
-- the tables that hold them, and the errors of the trip service.
pub mod Repository
pub mod Steps
pub mod Found
pub mod Queries
pub mod Access
pub mod Days
pub mod Plans
pub mod Edits
pub mod Saving
pub mod Polyline
pub mod Geojson
pub mod Samples
pub mod Tests
use agentic_guide_system.Prelude.{ℕ, String, Option, Bool, List, ◌⊎◌}
use agentic_guide_system.Prelude.Int.{ℤ}
use agentic_guide_system.Travel.Route.{DroppedStop}
use agentic_guide_system.Travel.Schedule.{ScheduleError}
use agentic_guide_system.Travel.Validator.{ValidationError, ValidationWarning}

pub data TripStatus : Type 0 where
  draft complete failed : TripStatus

pub data EditType : Type 0 where
  reorder remove_stop add_stop reoptimize_day : EditType

-- A value of the JSON column `preferences`.
pub data Json : Type 0 where
  null : Json
  bool : Bool → Json
  number : ℤ → Json
  text : String → Json

-- `preferences`; an absent key is null, as `get` answers it.
pub record Preferences : Type 0 where
  pub interests : List String
  pub budget : Option String
  pub include_offbeat : Option Bool
  pub include_trekking : Option Bool
  pub base_lat : Json
  pub base_lng : Json

-- `enriched_tags` is none where the column holds no list.
pub record Place : Type 0 where
  pub id : ℕ
  pub destination_id : ℕ
  pub name : String
  pub category : String
  pub enriched_tags : Option (List String)
  pub lat : ℤ
  pub lng : ℤ
  pub is_deleted : Bool

pub record Destination : Type 0 where
  pub id : ℕ
  pub lat : ℤ
  pub lng : ℤ

-- The columns of a stop apart from its id and its trip.
pub record StopRow : Type 0 where
  pub place_id : ℕ
  pub day_number : ℕ
  pub order_in_day : ℕ
  pub travel_time_min : ℕ
  pub visit_duration_min : ℕ
  pub suggested_start_time : Option (List ℕ)
  pub arrival_note : Option String
  pub polyline : Option String

pub record TripPlace : Type 0 where
  pub id : ℕ
  pub trip_id : ℕ
  pub row : StopRow

-- A stop with its joined place.
pub record LoadedStop : Type 0 where
  pub stop : TripPlace
  pub place : Option Place

pub record Trip : Type 0 where
  pub id : ℕ
  pub user_id : Option ℕ
  pub session_id : String
  pub destination_id : ℕ
  pub days : ℕ
  pub preferences : Preferences
  pub status : TripStatus
  pub is_deleted : Bool

-- A trip with `places` loaded.
pub record LoadedTrip : Type 0 where
  pub trip : Trip
  pub places : List LoadedStop

-- One entry of `before` and `after` in the payload of an edit event.
pub record StopSnapshot : Type 0 where
  pub place_id : ℕ
  pub order_in_day : ℕ
  pub travel_time_min : ℕ
  pub visit_duration_min : ℕ
  pub suggested_start_time : Option (List ℕ)
  pub polyline : Option String

pub record TripEditEvent : Type 0 where
  pub id : ℕ
  pub trip_id : ℕ
  pub edit_type : EditType
  pub day_number : ℕ
  pub place_id : Option ℕ
  pub before : List StopSnapshot
  pub after : List StopSnapshot

-- The columns that an edit reads or writes; later rows are newer.
pub record TripEvaluation : Type 0 where
  pub id : ℕ
  pub trip_id : Option ℕ
  pub user_edited : Bool

-- The tables. A fresh id is the next number.
pub record Store : Type 0 where
  pub trips : List Trip
  pub trip_places : List TripPlace
  pub places : List Place
  pub destinations : List Destination
  pub trip_edit_events : List TripEditEvent
  pub trip_evaluations : List TripEvaluation
  pub next_id : ℕ

-- The messages and details of a `TripEditValidationError`.
pub data EditProblem : Type 0 where
  missing_joined_place : ℕ → EditProblem
  missing_route_leg : ℕ → ℕ → EditProblem
  edit_would_drop_other_stops : List DroppedStop → EditProblem
  failed_validation :
      List ValidationError → List (ValidationWarning ⊎ ValidationError) → EditProblem
  not_a_permutation : List ℕ → List ℕ → EditProblem
  day_would_be_empty : EditProblem
  other_destination : ℕ → ℕ → EditProblem
  no_stops : ℕ → EditProblem

-- The exceptions that leave a method of the service. The last five are the `ValueError`s of the
-- travel engine, the `KeyError` of a dict, the database's refusal of a second row for a place, and
-- the `assert` after a commit.
pub data TripError : Type 0 where
  trip_not_found : ℕ → TripError
  trip_forbidden : TripError
  trip_already_claimed : ℕ → TripError
  edit_refused : EditProblem → TripError
  stop_already_on_trip : TripError
  stop_not_found_on_day : TripError
  destination_not_found : ℕ → TripError
  place_not_found : ℕ → TripError
  schedule_failed : ScheduleError → TripError
  bad_start_time : TripError
  key_missing : ℕ → TripError
  integrity_violated : TripError
  assertion_failed : TripError
