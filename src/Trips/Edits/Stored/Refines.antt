-- ===== src/Trips/Edits/Stored/Refines.antt =====
-- src/trips/service.py: `_persist_day_and_audit` does to the table of stops what the abstract edit of
-- a day says, and records the edit.
use agentic_guide_system.Prelude.{
  ℕ, ◌≡◌, refl, ap, ◌∙◌, sym, subst, inl, inr, Option, none, some, Bool, true, false, ◌&&◌, List,
  [], ◌∷◌, ◌++◌, map, ◌==◌, ==_iff, arith, Bool-cases, Option-cases, if◌then◌else◌,
}
use agentic_guide_system.Prelude.Dict.{get, nat_eq}
use agentic_guide_system.Prelude.Dict.Keys.{keep_some}
use agentic_guide_system.Prelude.Result.{Result, ok}
use agentic_guide_system.Trips.{
  StopRow, TripPlace, Trip, LoadedTrip, Store, TripEditEvent, TripError, assertion_failed,
}
use agentic_guide_system.Trips.Repository.{
  Session, find_by, is_stop, is_day_stop, load_places, get_with_places, found_or, or_rollback,
  create_trip_places, commit, reload, insert_edit_event, mark_trip_edited,
}
use agentic_guide_system.Trips.Steps.{>>=-Steps, reading-ok, or_rollback-ok}
use agentic_guide_system.Trips.Queries.{over, or_else, find_by-and, find_by-same}
use agentic_guide_system.Trips.Days.{places_for_day, snapshot_stop}
use agentic_guide_system.Trips.Plans.{DayEdit, contains_id}
use agentic_guide_system.Trips.Edits.{
  edit_rows, stops_before, staying, scheduled_ids, delete_unscheduled, existing_by_place,
  rewrite_stops, new_rows, audit, write_day, persist_day_and_audit,
}
use agentic_guide_system.Trips.Edits.Untouched.{rewrite_stops-part, create_trip_places-part}
use agentic_guide_system.Trips.Edits.Stored.{
  IsTable, row_at, row_for, off_day, after_edit, HasDistinctPlaces,
}
use agentic_guide_system.Trips.Edits.Stored.Existing.{get-stops_before}
use agentic_guide_system.Trips.Edits.Stored.Deleted.{
  delete_unscheduled-IsTable, find_by-spared, row_at-unscheduled, turned,
}
use agentic_guide_system.Trips.Edits.Stored.Updated.{IsLinked, IsUpdated, update_existing-IsUpdated}
use agentic_guide_system.Trips.Edits.Stored.Inserted.{IsInserted, create_trip_places-IsInserted}
use agentic_guide_system.Trips.Edits.Stored.Rows.{
  edit_rows-ids, get-still_scheduled, row_for-new_rows, new_rows-HasDistinctPlaces,
}

keep_some-some :
    (k : TripPlace → Bool) (o : Option TripPlace) {tp : TripPlace}
    → keep_some k o ≡ some tp
    → o ≡ some tp
keep_some-some k none e = cc
keep_some-some k (some x) e = elim (Bool-cases (k x)) [
  | inl hit ↦ rw hit at e
  | inr miss ↦ cc (rw miss at e)
]

module _ (edit : DayEdit) (store : Store) (trip : Trip)
    (loaded : edit.trip ≡ load_places store trip) (h : IsTable store.trip_places)
    (d : HasDistinctPlaces (edit_rows edit)) where
  abbrev trip_id : ℕ
  trip_id = edit.trip.trip.id

  deleted : Store
  deleted = delete_unscheduled trip_id edit.day (scheduled_ids edit) (stops_before edit) store

  same_id : trip.id ≡ trip_id
  unfolding load_places
  same_id = sym (ap (λ (t : LoadedTrip). t.trip.id) loaded)

  -- The dict has the stops of the day.
  listed :
      (q : ℕ)
      → get (stops_before edit) q ≡ find_by (is_day_stop trip_id q edit.day) store.trip_places
  unfolding stops_before
  listed q =
      ap (λ (t : LoadedTrip). get (existing_by_place [] (places_for_day t edit.day)) q) loaded
      ∙ get-stops_before store trip edit.day q h
      ∙ ap (λ i. find_by (is_day_stop i q edit.day) store.trip_places) same_id

  deleted-IsTable : IsTable deleted.trip_places
  unfolding deleted
  deleted-IsTable =
      delete_unscheduled-IsTable trip_id edit.day (scheduled_ids edit) (stops_before edit) store h

  spared_trip :
      (t q : ℕ)
      → (trip_id == t) ≡ false
      → row_at t q deleted.trip_places ≡ row_at t q store.trip_places
  unfolding deleted is_stop
  spared_trip t q differs = ap (over (λ (tp : TripPlace). tp.row)) (
      find_by-spared trip_id edit.day (scheduled_ids edit) (stops_before edit) store h t q
        (λ tp here pid goes. ground arith))

  not_at :
      (q : ℕ) (tp : TripPlace)
      → is_stop trip_id q tp ≡ true
      → (pid : ℕ) → (q == pid) ≡ false
      → is_day_stop trip_id pid edit.day tp ≡ false
  unfolding is_stop
  not_at q tp here pid other = ground arith

  spared_place :
      (q : ℕ)
      → contains_id (scheduled_ids edit) q ≡ true
      → find_by (is_stop trip_id q) deleted.trip_places
        ≡ find_by (is_stop trip_id q) store.trip_places
  unfolding deleted
  spared_place q stays =
      find_by-spared trip_id edit.day (scheduled_ids edit) (stops_before edit) store h trip_id q
        (λ tp here pid goes. not_at q tp here pid (differs q pid stays goes))
    where
      differs :
          (q pid : ℕ)
          → contains_id (scheduled_ids edit) q ≡ true
          → contains_id (scheduled_ids edit) pid ≡ false
          → (q == pid) ≡ false
      differs q pid stays goes = elim (Bool-cases (q == pid)) [
        | inl same ↦ cc ((==_iff q pid).0 same, stays, goes)
        | inr other ↦ other
      ]

  not_staying : (q : ℕ) → contains_id (scheduled_ids edit) q ≡ false → get (staying edit) q ≡ none
  unfolding staying
  not_staying q goes = get-still_scheduled (scheduled_ids edit) (stops_before edit) q ∙ rw goes refl

  unscheduled :
      (q : ℕ)
      → contains_id (scheduled_ids edit) q ≡ false
      → row_at trip_id q deleted.trip_places ≡ off_day edit.day (row_at trip_id q store.trip_places)
  unfolding deleted
  unscheduled q goes =
      row_at-unscheduled trip_id edit.day (scheduled_ids edit) (stops_before edit) store h q goes
        (listed q)

  staying-IsLinked : IsLinked trip_id (staying edit) deleted.trip_places
  unfolding staying
  staying-IsLinked q tp e = elim (Bool-cases (contains_id (scheduled_ids edit) q)) [
    | inr goes ↦ cc (not_staying q goes, e)
    | inl stays ↦
        let there : get (stops_before edit) q ≡ some tp = kept stays in
        let on_day =
          sym (
            find_by-same (is_day_stop trip_id q edit.day)
              (λ x. (x.row.day_number == edit.day) && is_stop trip_id q x) store.trip_places
              (turned trip_id edit.day (scheduled_ids edit) q)
            ∙ find_by-and (λ x. x.row.day_number == edit.day) (is_stop trip_id q) store.trip_places
                (h.one_per_place trip_id q))
          ∙ sym (listed q)
          ∙ there in
        (tp, spared_place q stays ∙ keep_some-some _ _ on_day, refl)
  ]
    where
      kept : contains_id (scheduled_ids edit) q ≡ true → get (stops_before edit) q ≡ some tp
      kept stays =
          let kept_by = get-still_scheduled (scheduled_ids edit) (stops_before edit) q in
          rw stays at (sym kept_by ∙ e)

  updated :
      IsUpdated trip_id
        (staying edit)
        (edit_rows edit)
        deleted.trip_places
        (rewrite_stops edit store).trip_places
  unfolding rewrite_stops deleted
  updated =
      update_existing-IsUpdated trip_id (staying edit) (edit_rows edit) deleted d deleted-IsTable
        staying-IsLinked

  abbrev added : List StopRow
  added = new_rows (staying edit) (edit_rows edit)

  -- The view after the insertions, for the trip itself.
  view_of_trip :
      (after : List TripPlace)
      → IsInserted trip_id added (rewrite_stops edit store).trip_places after
      → (q : ℕ)
      → row_at trip_id q after
        ≡ after_edit edit.day (row_for q (edit_rows edit)) (row_at trip_id q store.trip_places)
  view_of_trip after inserted q =
      inserted.same_trip q
      ∙ ap
          (λ (new : Option StopRow).
            or_else new (row_at trip_id q (rewrite_stops edit store).trip_places))
          (row_for-new_rows (staying edit) (edit_rows edit) q)
      ∙ elim (Bool-cases (contains_id (scheduled_ids edit) q)) [
        | inl stays ↦ elim (Option-cases (row_for q (edit_rows edit))) [
          | inl none_there ↦ cc (rw none_there at (edit_rows-ids edit q), stays)
          | inr (row, there) ↦ elim (Option-cases (get (staying edit) q)) [
            | inl fresh ↦ rw (fresh, there) refl
            | inr (tp, old) ↦ rw (old, updated.present q tp old, there) refl
          ]
        ]
        | inr goes ↦
            let no_row = no_row_for q goes in
            let not_old = not_staying q goes in
            rw (not_old, no_row) (updated.absent q not_old ∙ unscheduled q goes)
      ]
    where
      no_row_for :
          (q : ℕ) → contains_id (scheduled_ids edit) q ≡ false → row_for q (edit_rows edit) ≡ none
      no_row_for q goes = elim (Option-cases (row_for q (edit_rows edit))) [
        | inl none_there ↦ none_there
        | inr (row, there) ↦ cc (rw there at (edit_rows-ids edit q), goes)
      ]

  -- The view after the insertions, for every trip.
  view_after :
      (after : List TripPlace)
      → IsInserted trip_id added (rewrite_stops edit store).trip_places after
      → (t q : ℕ)
      → row_at t q after ≡ (
          if trip_id == t
          then after_edit edit.day (row_for q (edit_rows edit)) (row_at t q store.trip_places)
          else row_at t q store.trip_places)
  view_after after inserted t q = elim (Bool-cases (trip_id == t)) [
    | inl same ↦
        subst
          (λ (u : ℕ). row_at u q after ≡ (
            if trip_id == u
            then after_edit edit.day (row_for q (edit_rows edit)) (row_at u q store.trip_places)
            else row_at u q store.trip_places))
          ((==_iff trip_id t).0 same)
          (rw ((==_iff trip_id trip_id).1 refl) (view_of_trip after inserted q))
    | inr other ↦
        rw other
          (inserted.other_trips t q other ∙ updated.other_trips t q other ∙ spared_trip t q other)
  ]

-- The abstract edit of a day, with its audit: the view of the table changes as `after_edit` says for
-- the trip and not at all for other trips, and one event is appended.
pub record IsStored (edit : DayEdit) (before after : Store) : Type 0 where
  pub view :
      (t q : ℕ)
      → row_at t q after.trip_places ≡ (
          if edit.trip.trip.id == t
          then after_edit edit.day (row_for q (edit_rows edit)) (row_at t q before.trip_places)
          else row_at t q before.trip_places)
  pub event_id : ℕ
  pub event :
      after.trip_edit_events
      ≡ before.trip_edit_events
        ++ record {
          id = event_id;
          trip_id = edit.trip.trip.id;
          edit_type = edit.edit_type;
          day_number = edit.day;
          place_id = edit.place_id;
          before = edit.before;
          after = map (λ row. snapshot_stop row) (edit_rows edit);
        }
          ∷ []

abbrev events_of : Store → List TripEditEvent
events_of store = store.trip_edit_events

write_day-IsStored :
    (edit : DayEdit) (s : Session) (trip : Trip) {s' : Session}
    → edit.trip ≡ load_places s.current trip
    → IsTable s.current.trip_places
    → HasDistinctPlaces (edit_rows edit)
    → write_day edit s ≡ (ok tt, s')
    → IsStored edit s.current s'.committed
unfolding write_day commit audit insert_edit_event mark_trip_edited
write_day-IsStored edit s trip {s'} loaded h d e =
    let started : Session = record s { current = rewrite_stops edit s.current } in
    let rows = new_rows (staying edit) (edit_rows edit) in
    let ran = >>=-Steps (create_trip_places edit.trip.trip.id rows) _ started e in
    let inserted =
      create_trip_places-IsInserted edit.trip.trip.id rows started
        (new_rows-HasDistinctPlaces (staying edit) (edit_rows edit) d) ran.ran in
    let mid = ran.between in
    let done : Session = record {
      committed = audit edit mid.current;
      current = audit edit mid.current;
    } in
    let ended : done ≡ s' = ap (λ (t : Result TripError (Unit {0}) × Session). t.1) ran.went_on in
    let same_events : mid.current.trip_edit_events ≡ s.current.trip_edit_events =
      ap (λ (t : Result TripError (Unit {0}) × Session). t.1.current.trip_edit_events) (sym ran.ran)
      ∙ (create_trip_places-part events_of (λ store table n. refl) edit.trip.trip.id rows started).1
      ∙ rewrite_stops-part events_of (λ store table n. refl) edit s.current in
    subst (λ (u : Session). IsStored edit s.current u.committed) ended
      (record {
        view = view_after edit s.current trip loaded h d mid.current.trip_places inserted;
        event_id = mid.current.next_id;
        event = rw same_events refl;
      })

-- Where it gives a trip, `_persist_day_and_audit` refines the abstract edit.
pub persist_day_and_audit-IsStored :
    (edit : DayEdit) (s : Session) (trip : Trip) {result : LoadedTrip} {s' : Session}
    → edit.trip ≡ load_places s.current trip
    → IsTable s.current.trip_places
    → HasDistinctPlaces (edit_rows edit)
    → persist_day_and_audit edit s ≡ (ok result, s')
    → IsStored edit s.current s'.committed
unfolding persist_day_and_audit reload
persist_day_and_audit-IsStored edit s trip {result} {s'} loaded h d e =
    let ran = >>=-Steps (or_rollback (write_day edit)) _ s e in
    let wrote = or_rollback-ok (write_day edit) s ran.ran in
    let (_, same) =
      reading-ok (λ store. found_or assertion_failed (get_with_places store edit.trip.trip.id))
        ran.between ran.went_on in
    subst (λ (u : Session). IsStored edit s.current u.committed) same
      (write_day-IsStored edit s trip loaded h d wrote)
