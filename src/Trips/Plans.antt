-- ===== src/Trips/Plans.antt =====
-- src/trips/service.py: the part of each edit that reads and decides, up to the call of
-- `_persist_day_and_audit`. The float dispersion of a day's coordinates and the routing service are
-- parameters.
use agentic_guide_system.Prelude.{
  ℕ, String, Option, none, some, Bool, true, false, not, ◌&&◌, List, [], ◌∷◌, ◌++◌, map, keep, any,
  ◌==◌, ltb, length, is_empty, ◌⊎◌, inl, inr, if◌then◌else◌,
}
use agentic_guide_system.Prelude.Dict.{Dict, get, put, nat_eq}
use agentic_guide_system.Prelude.Int.{ℤ}
use agentic_guide_system.Prelude.Result.{Result, ok, err, ◌>>=◌}
use agentic_guide_system.Travel.Places.{ScoredPlace}
use agentic_guide_system.Travel.Routing.{RouteLeg, RoutingProvider}
use agentic_guide_system.Travel.Route.{optimize_route}
use agentic_guide_system.Travel.Schedule.{ScheduledStop, ScheduleError, build_day_schedule}
use agentic_guide_system.Travel.Validator.{
  DayPlan, ValidationError, ValidationWarning, ValidationResult, validate_trip,
}
use agentic_guide_system.Travel.Validator.Verdict.{is_morning_slot}
use agentic_guide_system.Trips.{
  EditType, Place, LoadedStop, LoadedTrip, Store, StopSnapshot, TripError, trip_forbidden,
  edit_refused, failed_validation, not_a_permutation, day_would_be_empty, other_destination,
  no_stops, stop_already_on_trip, stop_not_found_on_day, destination_not_found, place_not_found,
  schedule_failed, bad_start_time, key_missing,
}
use agentic_guide_system.Trips.Repository.{get_destination, get_place, load_or_404, found_or}
use agentic_guide_system.Trips.Access.{is_owner}
use agentic_guide_system.Trips.Days.{
  each, resolve_base, places_for_day, scored_place, hydrate_scored, snapshot_day,
  day_plan_from_scheduled, day_plan_from_stored, reject_if_dropped, fixed_order_day,
}

unfoldable pub load_owned_trip : Store → ℕ → ℕ → Result TripError LoadedTrip
unfolding load_or_404
load_owned_trip store trip_id user_id = do
  trip ← load_or_404 trip_id store
  if is_owner trip.trip.user_id user_id then ok trip else err trip_forbidden

-- An element of a sorted set of numbers.
abbrev pub add_day : ℕ → List ℕ → List ℕ
add_day n [] = n ∷ []
add_day n (d ∷ ds) =
    let rest = add_day n ds in if n == d then d ∷ ds else if ltb n d then n ∷ d ∷ ds else d ∷ rest

-- `sorted({tp.day_number for tp in places} | {mutated})`
unfoldable pub days_present : ℕ → List LoadedStop → List ℕ
days_present mutated [] = mutated ∷ []
days_present mutated (tp ∷ places) = add_day tp.stop.row.day_number (days_present mutated places)

-- The loop that collects the day plans.
unfoldable pub collect_days : LoadedTrip → ℕ → DayPlan → List ℕ → Result TripError (List DayPlan)
unfolding places_for_day day_plan_from_stored
collect_days trip mutated new_day [] = ok []
collect_days trip mutated new_day (day ∷ days) =
    let rest = collect_days trip mutated new_day days in
    let stored = places_for_day trip day in
    if day == mutated
    then (rest >>= λ plans. ok (new_day ∷ plans))
    else if is_empty stored
    then rest
    else (day_plan_from_stored stored >>= λ plan. rest >>= λ plans. ok (plan ∷ plans))

abbrev pub is_reorder : EditType → Bool
is_reorder EditType.reorder = true
is_reorder _ = false

-- The errors that count for the edit, with the morning slots of a reorder moved to the warnings.
unfoldable pub split_errors :
    EditType → ValidationResult → List ValidationError × List (ValidationWarning ⊎ ValidationError)
split_errors edit_type result =
    let warnings = map (λ w. inl w) result.warnings in
    if is_reorder edit_type
    then (
      keep (λ e. not (is_morning_slot e)) result.errors,
      warnings ++ map (λ e. inr e) (keep is_morning_slot result.errors),
    )
    else (result.errors, warnings)

unfoldable pub refuse_errors : EditType → Option ValidationResult → Result TripError (Unit {0})
unfolding split_errors
refuse_errors edit_type none = err bad_start_time
refuse_errors edit_type (some result) =
    let (errors, warnings) = split_errors edit_type result in
    if is_empty errors then ok tt else err (edit_refused (failed_validation errors warnings))

abbrev of_schedule :
    Result ScheduleError (List ScheduledStop) → Result TripError (List ScheduledStop)
of_schedule (ok stops) = ok stops
of_schedule (err e) = err (schedule_failed e)

-- `build_day_schedule`, whose `ValueError` leaves the method.
unfoldable pub schedule_mutated_day :
    List ScoredPlace → List RouteLeg → Bool → Result TripError (List ScheduledStop)
schedule_mutated_day ordered legs preserve_order =
    of_schedule (build_day_schedule ordered legs preserve_order)

-- The arguments of `_persist_day_and_audit`.
pub record DayEdit : Type 0 where
  pub trip : LoadedTrip
  pub day : ℕ
  pub scheduled : List ScheduledStop
  pub legs : List RouteLeg
  pub ordered_for_poly : List ScoredPlace
  pub leg_polylines : List (Option String)
  pub before : List StopSnapshot
  pub edit_type : EditType
  pub place_id : Option ℕ

abbrev pub stop_ids : List LoadedStop → List ℕ
stop_ids stops = map (λ tp. tp.stop.row.place_id) stops

abbrev pub contains_id : List ℕ → ℕ → Bool
contains_id ids id = any (λ i. i == id) ids

abbrev includes : List ℕ → List ℕ → Bool
includes xs [] = true
includes xs (y ∷ ys) = contains_id xs y && includes xs ys

-- `len(place_ids) != len(current_ids) or set(place_ids) != set(current_ids)`, negated.
unfoldable pub is_permutation : List ℕ → List ℕ → Bool
is_permutation place_ids current_ids =
    length place_ids == length current_ids
    && (includes current_ids place_ids && includes place_ids current_ids)

-- `{tp.place_id: tp for tp in day_stops}`
unfoldable pub stops_by_id : Dict ℕ LoadedStop → List LoadedStop → Dict ℕ LoadedStop
stops_by_id out [] = out
stops_by_id out (tp ∷ stops) = stops_by_id (put out tp.stop.row.place_id tp) stops

-- `_hydrate_scored(by_id[pid])`
unfoldable pub hydrate_id : Dict ℕ LoadedStop → ℕ → Result TripError ScoredPlace
unfolding hydrate_scored
hydrate_id by_id pid = do tp ← found_or (key_missing pid) (get by_id pid); hydrate_scored tp

-- The trip, and the base of its days.
unfoldable pub open_trip : Store → ℕ → ℕ → Result TripError (LoadedTrip × ℤ × ℤ)
unfolding load_owned_trip get_destination resolve_base
open_trip store trip_id user_id = do
  trip ← load_owned_trip store trip_id user_id
  dest ←
      found_or (destination_not_found trip.trip.destination_id)
        (get_destination store trip.trip.destination_id)
  let base = resolve_base trip.trip dest
  ok (trip, base.0, base.1)

-- The checks of `add_stop` on the place.
unfoldable pub check_new_place : LoadedTrip → ℕ → Place → Result TripError (Unit {0})
check_new_place trip place_id place =
    if not (place.destination_id == trip.trip.destination_id)
    then err (edit_refused (other_destination place.destination_id trip.trip.destination_id))
    else if contains_id (stop_ids trip.places) place_id
    then err stop_already_on_trip
    else ok tt

-- The guards of the other edits.
unfoldable pub check_permutation : List ℕ → List ℕ → Result TripError (Unit {0})
unfolding is_permutation
check_permutation place_ids current_ids =
    if is_permutation place_ids current_ids
    then ok tt
    else err (edit_refused (not_a_permutation current_ids place_ids))

unfoldable pub check_removable : ℕ → List ℕ → Result TripError (Unit {0})
check_removable place_id current_ids =
    if not (contains_id current_ids place_id)
    then err stop_not_found_on_day
    else if length current_ids == 1
    then err (edit_refused day_would_be_empty)
    else ok tt

unfoldable pub check_has_stops : ℕ → List LoadedStop → Result TripError (Unit {0})
check_has_stops day stops = if is_empty stops then err (edit_refused (no_stops day)) else ok tt

module _ (day_coord_stddev_m : List ScheduledStop → ℕ) where
  unfoldable pub validate_full_trip :
      LoadedTrip → ℕ → DayPlan → EditType → Result TripError (Unit {0})
  unfolding days_present collect_days refuse_errors
  validate_full_trip trip mutated new_day edit_type = do
    plans ← collect_days trip mutated new_day (days_present mutated trip.places)
    refuse_errors edit_type (validate_trip day_coord_stddev_m (record { days = plans }))

module _ (day_coord_stddev_m : List ScheduledStop → ℕ) (routing : RoutingProvider) where
  -- What the edits that route the day again have in common.
  unfoldable pub rerouted :
      LoadedTrip → ℕ → List ScoredPlace → ℤ → ℤ → EditType → Option ℕ → Result TripError DayEdit
  unfolding optimize_route reject_if_dropped schedule_mutated_day validate_full_trip places_for_day
      snapshot_day
  rerouted trip day places base_lat base_lng edit_type place_id = do
    let result = optimize_route base_lat base_lng routing places
    _ ← reject_if_dropped result
    scheduled ← schedule_mutated_day result.ordered result.legs false
    _ ←
        validate_full_trip day_coord_stddev_m trip day
          (day_plan_from_scheduled scheduled result.legs) edit_type
    ok (record {
      trip = trip;
      day = day;
      scheduled = scheduled;
      legs = result.legs;
      ordered_for_poly = result.ordered;
      leg_polylines = result.leg_polylines;
      before = snapshot_day (places_for_day trip day);
      edit_type = edit_type;
      place_id = place_id;
    })

  unfoldable pub plan_reorder : ℕ → ℕ → List ℕ → ℕ → Store → Result TripError DayEdit
  unfolding open_trip places_for_day check_permutation each hydrate_id stops_by_id fixed_order_day
      schedule_mutated_day validate_full_trip snapshot_day
  plan_reorder trip_id day place_ids user_id store = do
    (trip, base_lat, base_lng) ← open_trip store trip_id user_id
    let day_stops = places_for_day trip day
    _ ← check_permutation place_ids (stop_ids day_stops)
    scored ← each (hydrate_id (stops_by_id [] day_stops)) place_ids
    (ordered, consecutive, leg_polylines) ← fixed_order_day scored base_lat base_lng routing
    scheduled ← schedule_mutated_day ordered consecutive true
    _ ←
        validate_full_trip day_coord_stddev_m trip day
          (day_plan_from_scheduled scheduled consecutive) EditType.reorder
    ok (record {
      trip = trip;
      day = day;
      scheduled = scheduled;
      legs = consecutive;
      ordered_for_poly = ordered;
      leg_polylines = leg_polylines;
      before = snapshot_day day_stops;
      edit_type = EditType.reorder;
      place_id = none;
    })

  unfoldable pub plan_remove : ℕ → ℕ → ℕ → ℕ → Store → Result TripError DayEdit
  unfolding open_trip places_for_day check_removable each rerouted
  plan_remove trip_id day place_id user_id store = do
    (trip, base_lat, base_lng) ← open_trip store trip_id user_id
    let day_stops = places_for_day trip day
    _ ← check_removable place_id (stop_ids day_stops)
    remaining ← each hydrate_scored (keep (λ tp. not (tp.stop.row.place_id == place_id)) day_stops)
    rerouted trip day remaining base_lat base_lng EditType.remove_stop (some place_id)

  unfoldable pub plan_add : ℕ → ℕ → ℕ → ℕ → Store → Result TripError DayEdit
  unfolding open_trip places_for_day get_place check_new_place each rerouted
  plan_add trip_id day place_id user_id store = do
    (trip, base_lat, base_lng) ← open_trip store trip_id user_id
    place ← found_or (place_not_found place_id) (get_place store place_id)
    _ ← check_new_place trip place_id place
    stored ← each hydrate_scored (places_for_day trip day)
    rerouted trip day (stored ++ scored_place place ∷ []) base_lat base_lng EditType.add_stop
        (some place_id)

  unfoldable pub plan_reoptimize : ℕ → ℕ → ℕ → Store → Result TripError DayEdit
  unfolding open_trip places_for_day check_has_stops each rerouted
  plan_reoptimize trip_id day user_id store = do
    (trip, base_lat, base_lng) ← open_trip store trip_id user_id
    let day_stops = places_for_day trip day
    _ ← check_has_stops day day_stops
    scored ← each hydrate_scored day_stops
    rerouted trip day scored base_lat base_lng EditType.reoptimize_day none
