-- ===== src/Trips/Edits/Decided.antt =====
-- src/trips/service.py: what an edit has established before it stores the day.
use agentic_guide_system.Prelude.{
  ℕ, ◌≡◌, refl, ap, ◌∙◌, subst, List, [], ◌∷◌, ◌++◌, keep, not, ◌==◌, true, false, Option, none,
  some,
}
use agentic_guide_system.Prelude.Result.{ok, >>=-eq-ok, ok-eq-ok}
use agentic_guide_system.Prelude.Int.{ℤ}
use agentic_guide_system.Travel.Places.{ScoredPlace}
use agentic_guide_system.Travel.Routing.{RoutingProvider}
use agentic_guide_system.Travel.Route.{optimize_route}
use agentic_guide_system.Travel.Schedule.{ScheduledStop}
use agentic_guide_system.Trips.{EditType, LoadedTrip, Store, destination_not_found, place_not_found}
use agentic_guide_system.Trips.Repository.{found_or, get_destination, get_place}
use agentic_guide_system.Trips.Days.{
  each, places_for_day, hydrate_scored, scored_place, day_plan_from_scheduled, reject_if_dropped,
  fixed_order_day,
}
use agentic_guide_system.Trips.Plans.{
  DayEdit, load_owned_trip, open_trip, schedule_mutated_day, validate_full_trip, rerouted,
  plan_reorder, plan_remove, plan_add, plan_reoptimize, check_permutation, check_removable,
  check_has_stops, check_new_place, stop_ids, hydrate_id, stops_by_id,
}

module _ (dev : List ScheduledStop → ℕ) where
  -- The trip is the user's, and the trip with the new day has passed the validation of the edit.
  pub record IsDecided (store : Store) (trip_id day user_id : ℕ) (edit_type : EditType)
      (edit : DayEdit) : Type 0 where
    pub owned : load_owned_trip store trip_id user_id ≡ ok edit.trip
    pub same_day : edit.day ≡ day
    pub same_type : edit.edit_type ≡ edit_type
    pub validated :
        validate_full_trip dev edit.trip day
          (day_plan_from_scheduled edit.scheduled edit.legs)
          edit_type
        ≡ ok tt

  open_trip-owned :
      (store : Store) (trip_id user_id : ℕ) {opened : LoadedTrip × ℤ × ℤ}
      → open_trip store trip_id user_id ≡ ok opened
      → load_owned_trip store trip_id user_id ≡ ok opened.0
  unfolding open_trip
  open_trip-owned store trip_id user_id {opened} e =
      let (trip, owned, e') = >>=-eq-ok (load_owned_trip store trip_id user_id) _ e in
      let (dest, _, e'') =
        >>=-eq-ok
          (found_or (destination_not_found trip.trip.destination_id)
            (get_destination store trip.trip.destination_id))
          _ e' in
      owned ∙ ap (λ (o : LoadedTrip × ℤ × ℤ). ok o.0) (ok-eq-ok e'')

  module _ (routing : RoutingProvider) where
    rerouted-IsDecided :
        (store : Store) (trip_id day user_id : ℕ) (trip : LoadedTrip) (places : List ScoredPlace)
        (base_lat base_lng : ℤ) (edit_type : EditType) (place_id : Option ℕ) {edit : DayEdit}
        → load_owned_trip store trip_id user_id ≡ ok trip
        → rerouted dev routing trip day places base_lat base_lng edit_type place_id ≡ ok edit
        → IsDecided store trip_id day user_id edit_type edit
    unfolding rerouted
    rerouted-IsDecided store trip_id day user_id trip places base_lat base_lng edit_type place_id
          {edit} owned e =
        let result = optimize_route base_lat base_lng routing places in
        let (_, _, e1) = >>=-eq-ok (reject_if_dropped result) _ e in
        let (scheduled, _, e2) =
          >>=-eq-ok (schedule_mutated_day result.ordered result.legs false) _ e1 in
        let (_, valid, e3) =
          >>=-eq-ok
            (validate_full_trip dev trip day (day_plan_from_scheduled scheduled result.legs)
              edit_type)
            _ e2 in
        subst (IsDecided store trip_id day user_id edit_type) (ok-eq-ok e3)
          (record { owned = owned; same_day = refl; same_type = refl; validated = valid })

    pub plan_reorder-IsDecided :
        (trip_id day : ℕ) (place_ids : List ℕ) (user_id : ℕ) (store : Store) {edit : DayEdit}
        → plan_reorder dev routing trip_id day place_ids user_id store ≡ ok edit
        → IsDecided store trip_id day user_id EditType.reorder edit
    unfolding plan_reorder
    plan_reorder-IsDecided trip_id day place_ids user_id store {edit} e =
        let ((trip, base_lat, base_lng), opened, e1) =
          >>=-eq-ok (open_trip store trip_id user_id) _ e in
        let day_stops = places_for_day trip day in
        let (_, _, e2) = >>=-eq-ok (check_permutation place_ids (stop_ids day_stops)) _ e1 in
        let (scored, _, e3) =
          >>=-eq-ok (each (hydrate_id (stops_by_id [] day_stops)) place_ids) _ e2 in
        let ((ordered, consecutive, polylines), _, e4) =
          >>=-eq-ok (fixed_order_day scored base_lat base_lng routing) _ e3 in
        let (scheduled, _, e5) = >>=-eq-ok (schedule_mutated_day ordered consecutive true) _ e4 in
        let (_, valid, e6) =
          >>=-eq-ok
            (validate_full_trip dev trip day (day_plan_from_scheduled scheduled consecutive)
              EditType.reorder)
            _ e5 in
        subst (IsDecided store trip_id day user_id EditType.reorder) (ok-eq-ok e6) (record {
          owned = open_trip-owned store trip_id user_id opened;
          same_day = refl;
          same_type = refl;
          validated = valid;
        })

    pub plan_remove-IsDecided :
        (trip_id day place_id user_id : ℕ) (store : Store) {edit : DayEdit}
        → plan_remove dev routing trip_id day place_id user_id store ≡ ok edit
        → IsDecided store trip_id day user_id EditType.remove_stop edit
    unfolding plan_remove
    plan_remove-IsDecided trip_id day place_id user_id store {edit} e =
        let ((trip, base_lat, base_lng), opened, e1) =
          >>=-eq-ok (open_trip store trip_id user_id) _ e in
        let day_stops = places_for_day trip day in
        let (_, _, e2) = >>=-eq-ok (check_removable place_id (stop_ids day_stops)) _ e1 in
        let (remaining, _, e3) =
          >>=-eq-ok
            (each hydrate_scored (keep (λ tp. not (tp.stop.row.place_id == place_id)) day_stops)) _
            e2 in
        rerouted-IsDecided store trip_id day user_id trip remaining base_lat base_lng
          EditType.remove_stop (some place_id) (open_trip-owned store trip_id user_id opened) e3

    pub plan_add-IsDecided :
        (trip_id day place_id user_id : ℕ) (store : Store) {edit : DayEdit}
        → plan_add dev routing trip_id day place_id user_id store ≡ ok edit
        → IsDecided store trip_id day user_id EditType.add_stop edit
    unfolding plan_add
    plan_add-IsDecided trip_id day place_id user_id store {edit} e =
        let ((trip, base_lat, base_lng), opened, e1) =
          >>=-eq-ok (open_trip store trip_id user_id) _ e in
        let (place, _, e2) =
          >>=-eq-ok (found_or (place_not_found place_id) (get_place store place_id)) _ e1 in
        let (_, _, e3) = >>=-eq-ok (check_new_place trip place_id place) _ e2 in
        let (stored, _, e4) = >>=-eq-ok (each hydrate_scored (places_for_day trip day)) _ e3 in
        rerouted-IsDecided store trip_id day user_id trip (stored ++ scored_place place ∷ [])
          base_lat base_lng EditType.add_stop (some place_id)
          (open_trip-owned store trip_id user_id opened) e4

    pub plan_reoptimize-IsDecided :
        (trip_id day user_id : ℕ) (store : Store) {edit : DayEdit}
        → plan_reoptimize dev routing trip_id day user_id store ≡ ok edit
        → IsDecided store trip_id day user_id EditType.reoptimize_day edit
    unfolding plan_reoptimize
    plan_reoptimize-IsDecided trip_id day user_id store {edit} e =
        let ((trip, base_lat, base_lng), opened, e1) =
          >>=-eq-ok (open_trip store trip_id user_id) _ e in
        let day_stops = places_for_day trip day in
        let (_, _, e2) = >>=-eq-ok (check_has_stops day day_stops) _ e1 in
        let (scored, _, e3) = >>=-eq-ok (each hydrate_scored day_stops) _ e2 in
        rerouted-IsDecided store trip_id day user_id trip scored base_lat base_lng
          EditType.reoptimize_day none (open_trip-owned store trip_id user_id opened) e3
