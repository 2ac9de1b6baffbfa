-- ===== src/Trips/Edits/Atomic.antt =====
-- src/trips/service.py: an edit is stored whole or not at all.
use agentic_guide_system.Prelude.{
  ℕ, ◌≡◌, refl, ap, ◌∙◌, subst, sym, Bool, true, false, List, some, if◌then◌else◌,
}
use agentic_guide_system.Prelude.Result.{Result, ok, err, >>=-eq-ok, ok-eq-ok}
use agentic_guide_system.Prelude.Dict.{nat_eq}
use agentic_guide_system.Travel.Routing.{RoutingProvider}
use agentic_guide_system.Travel.Schedule.{ScheduledStop}
use agentic_guide_system.Trips.{EditType, Trip, LoadedTrip, Store, TripError, trip_forbidden}
use agentic_guide_system.Trips.Repository.{
  Session, find_by, is_live, get_with_places, load_or_404, or_rollback, rollback, undone, continue,
  reload, commit, create_trip_places, insert_edit_event, mark_trip_edited,
}
use agentic_guide_system.Trips.Found.{find_by-true, is_live-id, load_or_404-found}
use agentic_guide_system.Trips.Access.{is_owner}
use agentic_guide_system.Trips.Plans.{
  DayEdit, load_owned_trip, plan_reorder, plan_remove, plan_add, plan_reoptimize,
}
use agentic_guide_system.Trips.Edits.{
  staying, edit_rows, new_rows, rewrite_stops, audit, write_day, persist_day_and_audit,
  decide_and_persist, reorder_stops, remove_stop, add_stop, reoptimize_day, EditRequest, to_reorder,
  to_remove, to_add, to_reoptimize, run_edit,
}
use agentic_guide_system.Trips.Edits.Untouched.{rewrite_stops-part, create_trip_places-part}
use agentic_guide_system.Trips.Edits.Decided.{
  IsDecided, plan_reorder-IsDecided, plan_remove-IsDecided, plan_add-IsDecided,
  plan_reoptimize-IsDecided,
}

-- What a method leaves: after an error the session it started in, and after a result a session whose
-- writes are all committed.
pub data Settled {A : Type 0} (s : Session) : Result TripError A × Session → Type 0 where
  refused : (e : TripError) → Settled s (err e, s)
  stored : (a : A) (s' : Session) → s'.committed ≡ s'.current → Settled s (ok a, s')

-- After an error the writes are rolled back; after a result they are committed, and the trips are
-- those of before.
abbrev Kept : Session → Result TripError (Unit {0}) × Session → Type 0
Kept s (ok _, t) = (t.committed ≡ t.current) × (t.current.trips ≡ s.current.trips)
Kept s (err e, t) = t ≡ rollback s

undone-Kept :
    (s : Session) (finish : Session → Session)
    → ((t : Session)
        → ((finish t).committed ≡ (finish t).current)
          × ((finish t).current.trips ≡ t.current.trips))
    → (out : Result TripError (Unit {0}) × Session) → out.1.committed ≡ s.committed
    → out.1.current.trips ≡ s.current.trips
    → Kept s (undone (continue {B = Unit {0}} out (λ _ t. (ok tt, finish t))))
unfolding rollback
undone-Kept s finish h (ok _, t) c k = ((h t).0, (h t).1 ∙ k)
undone-Kept s finish h (err e, t) c k =
    ap (λ (x : Store). record t { committed = x; current = x }) c

abbrev trips_of : Store → List Trip
trips_of store = store.trips

finish_day : DayEdit → Session → Session
finish_day edit t = record { committed = audit edit t.current; current = audit edit t.current }

finish_day-Kept :
    (edit : DayEdit) (t : Session)
    → ((finish_day edit t).committed ≡ (finish_day edit t).current)
      × ((finish_day edit t).current.trips ≡ t.current.trips)
unfolding finish_day audit insert_edit_event mark_trip_edited
finish_day-Kept edit t = (refl, refl)

write_day-Kept : (edit : DayEdit) (s : Session) → Kept s (or_rollback (write_day edit) s)
unfolding write_day commit finish_day
write_day-Kept edit s =
    let started : Session = record s { current = rewrite_stops edit s.current } in
    let rows = new_rows (staying edit) (edit_rows edit) in
    let (c, k) =
      create_trip_places-part trips_of (λ store table n. refl) edit.trip.trip.id rows started in
    undone-Kept s (finish_day edit) (finish_day-Kept edit)
      (create_trip_places edit.trip.trip.id rows started) c
      (k ∙ rewrite_stops-part trips_of (λ store table n. refl) edit s.current)

reload-Settled :
    (s : Session) (trip_id : ℕ) {trip : Trip}
    → find_by (is_live trip_id) s.current.trips ≡ some trip
    → rollback s ≡ s
    → (out : Result TripError (Unit {0}) × Session) → Kept s out
    → Settled s (continue {B = LoadedTrip} out (λ _. reload trip_id))
unfolding reload get_with_places
reload-Settled s trip_id live clean (ok _, t) (saved, same) =
    let there = ap (find_by (is_live trip_id)) same ∙ live in rw there (stored _ t saved)
reload-Settled s trip_id live clean (err e, t) k =
    subst (λ (u : Session). Settled {A = LoadedTrip} s (err e, u)) (sym (k ∙ clean)) (refused e)

persist-Settled :
    (edit : DayEdit) (s : Session) {trip : Trip}
    → find_by (is_live edit.trip.trip.id) s.current.trips ≡ some trip
    → rollback s ≡ s
    → Settled s (persist_day_and_audit edit s)
unfolding persist_day_and_audit
persist-Settled edit s live clean =
    reload-Settled s edit.trip.trip.id live clean (or_rollback (write_day edit) s)
      (write_day-Kept edit s)

-- The trip that was loaded is live under its own id.
pub load_owned_trip-live :
    (store : Store) (trip_id user_id : ℕ) {trip : LoadedTrip}
    → load_owned_trip store trip_id user_id ≡ ok trip
    → find_by (is_live trip.trip.id) store.trips ≡ some trip.trip
unfolding load_owned_trip
load_owned_trip-live store trip_id user_id {trip} e =
    let (loaded, found, e') = >>=-eq-ok (load_or_404 trip_id store) _ e in
    let same : loaded ≡ trip = if_owned (is_owner loaded.trip.user_id user_id) e' in
    let live = load_or_404-found trip_id store found in
    let id = is_live-id trip_id loaded.trip (find_by-true (is_live trip_id) store.trips live) in
    subst (λ (t : LoadedTrip). find_by (is_live t.trip.id) store.trips ≡ some t.trip) same
      (rw id live)
  where
    if_owned :
        (b : Bool) {l : LoadedTrip} → (if b then ok l else err trip_forbidden) ≡ ok trip → l ≡ trip
    if_owned true h = ok-eq-ok h
    if_owned false h = cc

decide-Settled :
    (plan : Store → Result TripError DayEdit) (s : Session)
    → rollback s ≡ s
    → ((edit : DayEdit)
        → plan s.current ≡ ok edit
        → (trip : Trip) × (find_by (is_live edit.trip.trip.id) s.current.trips ≡ some trip))
    → Settled s (decide_and_persist plan s)
unfolding decide_and_persist
decide-Settled plan s clean live = go (plan s.current) refl
  where
    go :
        (out : Result TripError DayEdit)
        → plan s.current ≡ out
        → Settled s (continue {B = LoadedTrip} (out, s) persist_day_and_audit)
    go (ok edit) e = persist-Settled edit s (live edit e).1 clean
    go (err x) e = refused x

module _ (dev : List ScheduledStop → ℕ) (routing : RoutingProvider) where
  clean : (s : Session) → s.committed ≡ s.current → rollback s ≡ s
  unfolding rollback
  clean s same = ap (λ (c : Store). record s { current = c }) same

  decided-live :
      (store : Store) (trip_id day user_id : ℕ) (edit_type : EditType) (edit : DayEdit)
      → IsDecided dev store trip_id day user_id edit_type edit
      → (trip : Trip) × (find_by (is_live edit.trip.trip.id) store.trips ≡ some trip)
  decided-live store trip_id day user_id edit_type edit d =
      (edit.trip.trip, load_owned_trip-live store trip_id user_id d.owned)

  -- In a session without pending writes, an edit of any kind either raises an error and leaves the
  -- session, with all its tables, as it was, or gives the trip and leaves all its writes committed. It
  -- never raises after its commit.
  pub run_edit-Settled :
      (request : EditRequest) (trip_id day user_id : ℕ) (s : Session)
      → s.committed ≡ s.current
      → Settled s (run_edit dev routing request trip_id day user_id s)
  unfolding run_edit reorder_stops remove_stop add_stop reoptimize_day
  run_edit-Settled (to_reorder place_ids) trip_id day user_id s same =
      decide-Settled (plan_reorder dev routing trip_id day place_ids user_id) s (clean s same)
        (λ edit e.
          decided-live s.current trip_id day user_id EditType.reorder edit
            (plan_reorder-IsDecided dev routing trip_id day place_ids user_id s.current e))
  run_edit-Settled (to_remove place_id) trip_id day user_id s same =
      decide-Settled (plan_remove dev routing trip_id day place_id user_id) s (clean s same)
        (λ edit e.
          decided-live s.current trip_id day user_id EditType.remove_stop edit
            (plan_remove-IsDecided dev routing trip_id day place_id user_id s.current e))
  run_edit-Settled (to_add place_id) trip_id day user_id s same =
      decide-Settled (plan_add dev routing trip_id day place_id user_id) s (clean s same) (λ edit e.
        decided-live s.current trip_id day user_id EditType.add_stop edit
          (plan_add-IsDecided dev routing trip_id day place_id user_id s.current e))
  run_edit-Settled to_reoptimize trip_id day user_id s same =
      decide-Settled (plan_reoptimize dev routing trip_id day user_id) s (clean s same) (λ edit e.
        decided-live s.current trip_id day user_id EditType.reoptimize_day edit
          (plan_reoptimize-IsDecided dev routing trip_id day user_id s.current e))
