-- ===== src/Trips/Edits.antt =====
-- src/trips/service.py: the unit of work that stores an edited day with its audit, and the four
-- edits of a day.
pub mod Decided
pub mod Untouched
pub mod Atomic
pub mod Planned
pub mod Validated
pub mod Stored
use agentic_guide_system.Prelude.{
  ℕ, suc, String, Option, none, some, Bool, true, false, not, List, [], ◌∷◌, map, keep, ◌==◌,
  if◌then◌else◌,
}
use agentic_guide_system.Prelude.Dict.{Dict, get, put, nat_eq}
use agentic_guide_system.Prelude.Result.{Result}
use agentic_guide_system.Travel.Rules.{base_sentinel_id}
use agentic_guide_system.Travel.Routing.{RoutingProvider, legs_to_lookup}
use agentic_guide_system.Travel.Route.{Lookup}
use agentic_guide_system.Travel.Schedule.{ScheduledStop}
use agentic_guide_system.Trips.{
  EditType, StopRow, TripPlace, LoadedStop, LoadedTrip, Store, StopSnapshot, TripError,
}
use agentic_guide_system.Trips.Repository.{
  Db, ◌>>=◌, reading, writing, or_rollback, commit, reload, create_trip_places, delete_trip_place,
  update_row, insert_edit_event, mark_trip_edited,
}
use agentic_guide_system.Trips.Days.{
  places_for_day, polyline_by_place_id, travel_into_stop, snapshot_stop,
}
use agentic_guide_system.Trips.Plans.{
  DayEdit, contains_id, plan_reorder, plan_remove, plan_add, plan_reoptimize,
}

abbrev flatten : Option (Option String) → Option String
flatten none = none
flatten (some p) = p

-- The values that one iteration of the loop over the scheduled stops writes.
unfoldable pub scheduled_row : Lookup → Dict ℕ (Option String) → ℕ → ℕ → ℕ → ScheduledStop → StopRow
unfolding travel_into_stop
scheduled_row lookup poly_map day order prev stop = record {
  place_id = stop.place.id;
  day_number = day;
  order_in_day = order;
  travel_time_min = travel_into_stop lookup prev stop.place.id;
  visit_duration_min = stop.visit_duration;
  suggested_start_time = some stop.suggested_start_time;
  arrival_note = stop.arrival_note;
  polyline = flatten (get poly_map stop.place.id);
}

unfoldable pub scheduled_rows :
    Lookup → Dict ℕ (Option String) → ℕ → ℕ → ℕ → List ScheduledStop → List StopRow
unfolding scheduled_row
scheduled_rows lookup poly_map day order prev [] = []
scheduled_rows lookup poly_map day order prev (stop ∷ stops) =
    scheduled_row lookup poly_map day order prev stop
    ∷ scheduled_rows lookup poly_map day (suc order) stop.place.id stops

-- All rows of an edit, numbered from 1 on.
unfoldable pub edit_rows : DayEdit → List StopRow
unfolding scheduled_rows polyline_by_place_id
edit_rows edit =
    scheduled_rows (legs_to_lookup edit.legs)
      (polyline_by_place_id [] edit.ordered_for_poly edit.leg_polylines) edit.day 1 base_sentinel_id
      edit.scheduled

-- `{tp.place_id: tp for tp in self._places_for_day(trip, day)}`
unfoldable pub existing_by_place : Dict ℕ TripPlace → List LoadedStop → Dict ℕ TripPlace
existing_by_place out [] = out
existing_by_place out (tp ∷ stops) = existing_by_place (put out tp.stop.row.place_id tp.stop) stops

unfoldable pub delete_unless : Bool → ℕ → ℕ → ℕ → Store → Store
unfolding delete_trip_place
delete_unless true trip_id place_id day store = store
delete_unless false trip_id place_id day store = delete_trip_place trip_id place_id day store

-- The loop that deletes the stops that are not scheduled any more, and what it leaves of the dict.
unfoldable pub delete_unscheduled : ℕ → ℕ → List ℕ → Dict ℕ TripPlace → Store → Store
unfolding delete_unless
delete_unscheduled trip_id day scheduled_ids [] store = store
delete_unscheduled trip_id day scheduled_ids ((pid, tp) ∷ rest) store =
    delete_unscheduled trip_id day scheduled_ids rest
      (delete_unless (contains_id scheduled_ids pid) trip_id pid day store)

abbrev pub still_scheduled : List ℕ → Dict ℕ TripPlace → Dict ℕ TripPlace
still_scheduled scheduled_ids existing = keep (λ entry. contains_id scheduled_ids entry.0) existing

-- The updates of the stops that stay.
unfoldable pub update_found : Option TripPlace → StopRow → Store → Store
unfolding update_row
update_found none row store = store
update_found (some tp) row store = update_row tp.id row store

unfoldable pub update_existing : Dict ℕ TripPlace → List StopRow → Store → Store
unfolding update_found
update_existing existing [] store = store
update_existing existing (row ∷ rows) store =
    update_existing existing rows (update_found (get existing row.place_id) row store)

abbrev is_none : Option TripPlace → Bool
is_none none = true
is_none (some tp) = false

-- `new_rows`
unfoldable pub new_rows : Dict ℕ TripPlace → List StopRow → List StopRow
new_rows existing rows = keep (λ row. is_none (get existing row.place_id)) rows

unfoldable pub stops_before : DayEdit → Dict ℕ TripPlace
unfolding existing_by_place
stops_before edit = existing_by_place [] (places_for_day edit.trip edit.day)

abbrev pub scheduled_ids : DayEdit → List ℕ
scheduled_ids edit = map (λ stop. stop.place.id) edit.scheduled

-- `existing_by_place` after the loop that deletes.
unfoldable pub staying : DayEdit → Dict ℕ TripPlace
unfolding stops_before
staying edit = still_scheduled (scheduled_ids edit) (stops_before edit)

-- The deletions and the updates.
unfoldable pub rewrite_stops : DayEdit → Store → Store
unfolding edit_rows stops_before staying delete_unscheduled update_existing
rewrite_stops edit store =
    update_existing (staying edit) (edit_rows edit)
      (delete_unscheduled edit.trip.trip.id edit.day (scheduled_ids edit) (stops_before edit) store)

unfoldable pub audit : DayEdit → Store → Store
unfolding insert_edit_event mark_trip_edited edit_rows snapshot_stop
audit edit store = mark_trip_edited edit.trip.trip.id (
    insert_edit_event edit.trip.trip.id edit.edit_type edit.day edit.place_id edit.before
      (map (λ row. snapshot_stop row) (edit_rows edit)) store)

-- The body of the `try`.
unfoldable pub write_day : DayEdit → Db (Unit {0})
unfolding rewrite_stops staying edit_rows new_rows create_trip_places audit commit
write_day edit = do
  _ ← writing (rewrite_stops edit)
  _ ← create_trip_places edit.trip.trip.id (new_rows (staying edit) (edit_rows edit))
  _ ← writing (audit edit)
  commit

unfoldable pub persist_day_and_audit : DayEdit → Db LoadedTrip
unfolding write_day reload
persist_day_and_audit edit = do _ ← or_rollback (write_day edit); reload edit.trip.trip.id

-- An edit decides on what it reads and then stores the day.
unfoldable pub decide_and_persist : (Store → Result TripError DayEdit) → Db LoadedTrip
unfolding persist_day_and_audit
decide_and_persist plan = do edit ← reading plan; persist_day_and_audit edit

module _ (day_coord_stddev_m : List ScheduledStop → ℕ) (routing : RoutingProvider) where
  unfoldable pub reorder_stops : ℕ → ℕ → List ℕ → ℕ → Db LoadedTrip
  unfolding decide_and_persist plan_reorder
  reorder_stops trip_id day place_ids user_id =
      decide_and_persist (plan_reorder day_coord_stddev_m routing trip_id day place_ids user_id)

  unfoldable pub remove_stop : ℕ → ℕ → ℕ → ℕ → Db LoadedTrip
  unfolding decide_and_persist plan_remove
  remove_stop trip_id day place_id user_id =
      decide_and_persist (plan_remove day_coord_stddev_m routing trip_id day place_id user_id)

  unfoldable pub add_stop : ℕ → ℕ → ℕ → ℕ → Db LoadedTrip
  unfolding decide_and_persist plan_add
  add_stop trip_id day place_id user_id =
      decide_and_persist (plan_add day_coord_stddev_m routing trip_id day place_id user_id)

  unfoldable pub reoptimize_day : ℕ → ℕ → ℕ → Db LoadedTrip
  unfolding decide_and_persist plan_reoptimize
  reoptimize_day trip_id day user_id =
      decide_and_persist (plan_reoptimize day_coord_stddev_m routing trip_id day user_id)

-- The edits, as the routes of the API request them.
pub data EditRequest : Type 0 where
  to_reorder : List ℕ → EditRequest
  to_remove : ℕ → EditRequest
  to_add : ℕ → EditRequest
  to_reoptimize : EditRequest

abbrev pub requested_type : EditRequest → EditType
requested_type (to_reorder place_ids) = EditType.reorder
requested_type (to_remove place_id) = EditType.remove_stop
requested_type (to_add place_id) = EditType.add_stop
requested_type to_reoptimize = EditType.reoptimize_day

module _ (day_coord_stddev_m : List ScheduledStop → ℕ) (routing : RoutingProvider) where
  unfoldable pub run_edit : EditRequest → ℕ → ℕ → ℕ → Db LoadedTrip
  unfolding reorder_stops remove_stop add_stop reoptimize_day
  run_edit (to_reorder place_ids) trip_id day user_id =
      reorder_stops day_coord_stddev_m routing trip_id day place_ids user_id
  run_edit (to_remove place_id) trip_id day user_id =
      remove_stop day_coord_stddev_m routing trip_id day place_id user_id
  run_edit (to_add place_id) trip_id day user_id =
      add_stop day_coord_stddev_m routing trip_id day place_id user_id
  run_edit to_reoptimize trip_id day user_id =
      reoptimize_day day_coord_stddev_m routing trip_id day user_id
