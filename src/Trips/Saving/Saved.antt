-- ===== src/Trips/Saving/Saved.antt =====
-- src/trips/service.py: what `save_from_state` saves, and when.
use agentic_guide_system.Prelude.{
  ℕ, ◌<◌, ◌≡◌, refl, ap, ◌∙◌, subst, inl, inr, String, Option, none, some, Bool, true, false, not,
  ◌||◌, List, [], ◌∷◌, ◌++◌, map, any, All, any-append, sym, length, is_empty, ◌==◌, ==_iff, arith,
  Bool-cases, if◌then◌else◌,
}
use agentic_guide_system.Prelude.Int.{ℤ}
use agentic_guide_system.Prelude.Result.{Result, ok}
use agentic_guide_system.Planner.Schemas.{FlatStop, ScheduleDay}
use agentic_guide_system.Planner.State.{TravelState}
use agentic_guide_system.Trips.{
  Json, Preferences, TripStatus, StopRow, TripPlace, Trip, Store, TripError,
}
use agentic_guide_system.Trips.Repository.{
  Session, find_by, is_live, is_stop, insert_row, create_trip, create_trip_places, commit,
}
use agentic_guide_system.Trips.Queries.{find_by-append, find_by-any}
use agentic_guide_system.Trips.Edits.Stored.{row_at, row_for, HasDistinctPlaces}
use agentic_guide_system.Trips.Edits.Stored.Inserted.{or_else-none, create_trip_places-IsInserted}
use agentic_guide_system.Trips.Edits.Stored.Rows.{is_some}
use agentic_guide_system.Trips.Edits.Untouched.{create_trip_places-part}
use agentic_guide_system.Trips.Saving.Values.{
  status_for, IsPreferred, AreRowsOf, stops_of, preferences_from_state-IsPreferred, trip_status-eq,
  place_rows-AreRowsOf,
}
use agentic_guide_system.Trips.Saving.{
  trip_status, schedule_usable, preferences_from_state, place_rows, stop_row, create_in, write_trip,
  save_from_state,
}

-- The next id is new to the trips and to the table of stops.
pub record IsFresh (store : Store) : Type 0 where
  pub trips : All (λ t. t.id < store.next_id) store.trips
  pub stops : All (λ tp. tp.trip_id < store.next_id) store.trip_places

usable-rows : (days : List ScheduleDay) → schedule_usable days ≡ not (is_empty (place_rows days))
unfolding schedule_usable place_rows
usable-rows [] = refl
usable-rows (day ∷ days) = by_stops day.stops (usable-rows days)
  where
    by_stops :
        (stops : List FlatStop)
        → any (λ (d : ScheduleDay). not (is_empty d.stops)) days ≡ not (is_empty (place_rows days))
        → (not (is_empty stops) || any (λ (d : ScheduleDay). not (is_empty d.stops)) days)
          ≡ not (is_empty (map (stop_row day.day) stops ++ place_rows days))
    by_stops [] rest = rest
    by_stops (stop ∷ stops) rest = refl

-- Rows for distinct places that the trip has no stops at are inserted without an error.
abbrev AreFree : ℕ → List StopRow → List TripPlace → Type 0
AreFree trip_id rows table =
    (q : ℕ) → is_some (row_for q rows) ≡ true → any (is_stop trip_id q) table ≡ false

AreFree-next :
    (trip_id : ℕ) (row : StopRow) (rows : List StopRow) (store : Store)
    → HasDistinctPlaces (row ∷ rows)
    → AreFree trip_id (row ∷ rows) store.trip_places
    → AreFree trip_id rows (insert_row trip_id row store).trip_places
unfolding insert_row find_by is_stop
AreFree-next trip_id row rows store d free q there =
    rw (any-append (is_stop trip_id q) store.trip_places (new ∷ []), still_free) (here)
  where
    new : TripPlace
    new = record { id = store.next_id; trip_id = trip_id; row = row }

    differs : (row.place_id == q) ≡ false
    differs = elim (Bool-cases (row.place_id == q)) [
      | inl same ↦
          cc (subst (λ p. row_for p rows ≡ none) ((==_iff row.place_id q).0 same) d.0, there)
      | inr other ↦ other
    ]

    still_free : any (is_stop trip_id q) store.trip_places ≡ false
    still_free = free q (rw differs there)

    here : (is_stop trip_id q new || false) ≡ false
    here = ground arith

create_trip_places-ok :
    (trip_id : ℕ) (rows : List StopRow) (s : Session)
    → HasDistinctPlaces rows
    → AreFree trip_id rows s.current.trip_places
    → (s' : Session) × (create_trip_places trip_id rows s ≡ (ok tt, s'))
unfolding create_trip_places find_by
create_trip_places-ok trip_id [] s d free = (s, refl)
create_trip_places-ok trip_id (row ∷ rows) s d free =
    let mid : Session = record s { current = insert_row trip_id row s.current } in
    let unused = free row.place_id (rw ((==_iff row.place_id row.place_id).1 refl) refl) in
    let (s', e) =
      create_trip_places-ok trip_id rows mid d.1 (AreFree-next trip_id row rows s.current d free) in
    (s', rw unused e)

fresh-stops :
    (n q : ℕ) (table : List TripPlace)
    → All (λ tp. tp.trip_id < n) table
    → any (is_stop n q) table ≡ false
unfolding is_stop
fresh-stops n q [] h = refl
fresh-stops n q (tp ∷ table) h = ground (arith, h.0, fresh-stops n q table h.1)

fresh-trips :
    (n : ℕ) (trips : List Trip) → All (λ t. t.id < n) trips → any (is_live n) trips ≡ false
fresh-trips n [] h = refl
fresh-trips n (t ∷ trips) h = ground (arith, h.0, fresh-trips n trips h.1)

abbrev trips_of : Store → List Trip
trips_of store = store.trips

module _ (user_id : Option ℕ) (session_id : String) (destination_id days : ℕ)
    (preferences : Preferences) (status : TripStatus) where
  -- The saved trip, under an id of its own, with the rows as its stops and nothing else changed.
  pub record IsSaved (rows : List StopRow) (s s' : Session) (trip : Trip) : Type 0 where
    pub columns :
        (trip.user_id ≡ user_id)
        × (trip.session_id ≡ session_id)
        × (trip.destination_id ≡ destination_id)
        × (trip.days ≡ days)
        × (trip.preferences ≡ preferences)
        × (trip.status ≡ status)
    pub stored : s'.committed ≡ s'.current
    pub found : find_by (is_live trip.id) s'.current.trips ≡ some trip
    pub stops :
        (t q : ℕ)
        → row_at t q s'.current.trip_places
          ≡ (if trip.id == t then row_for q rows else row_at t q s.current.trip_places)

  write_trip-IsSaved :
      (rows : List StopRow) (s : Session)
      → IsFresh s.current
      → HasDistinctPlaces rows
      → (trip : Trip) × (s' : Session) × (write_trip user_id session_id destination_id days
            preferences status rows s
          ≡ (ok (some trip), s'))
        × IsSaved rows s s' trip
  unfolding write_trip create_in create_trip commit find_by
  write_trip-IsSaved rows s fresh d =
      let n = s.current.next_id in
      let made = create_trip user_id session_id destination_id days preferences status s.current in
      let trip : Trip = made.0 in
      let mid : Session = record s { current = made.1 } in
      let (left, wrote) =
        create_trip_places-ok n rows mid d
          (λ q _. fresh-stops n q s.current.trip_places fresh.stops) in
      let done : Session = record { committed = left.current; current = left.current } in
      let inserted = create_trip_places-IsInserted n rows mid d wrote in
      let same_trips : left.current.trips ≡ s.current.trips ++ trip ∷ [] =
        ap (λ (t : Result TripError (Unit {0}) × Session). t.1.current.trips) (sym wrote)
        ∙ (create_trip_places-part trips_of (λ store table i. refl) n rows mid).1 in
      (
        trip,
        done,
        rw wrote refl,
        record {
          columns = (refl, refl, refl, refl, refl, refl);
          stored = refl;
          found = rw same_trips (
              find_by-append (is_live n) s.current.trips (trip ∷ [])
              ∙ rw
                  (find_by-any (is_live n) s.current.trips
                    (fresh-trips n s.current.trips fresh.trips))
                  (rw ((==_iff n n).1 refl) refl));
          stops = λ t q. elim (Bool-cases (n == t)) [
            | inr other ↦ rw other (inserted.other_trips t q other)
            | inl same ↦
                let unused =
                  find_by-any (is_stop n q) s.current.trip_places
                    (fresh-stops n q s.current.trip_places fresh.stops) in
                subst
                  (λ (u : ℕ).
                    row_at u q left.current.trip_places
                    ≡ (if n == u then row_for q rows else row_at u q s.current.trip_places))
                  ((==_iff n t).0 same)
                  (inserted.same_trip q
                    ∙ rw ((==_iff n n).1 refl, unused) (or_else-none (row_for q rows)))
          ];
        },
      )

-- With a usable schedule of distinct places and a fresh next id, save_from_state succeeds, and the
-- trip it saves has the caller, the session, the status that its flags stand for and the preferences of
-- the state. In the committed state it has the rows of the schedule's stops, one for each with its day,
-- order, times, note and line, and no other; the stops of other trips are as before.
pub save_from_state-IsSaved :
    (parse_float : String → Option ℤ) (state : TravelState) (destination_id : ℕ)
    (base_lat base_lng : Json) (user_id : Option ℕ) (session_id : String) (s : Session)
    → IsFresh s.current
    → HasDistinctPlaces (place_rows state.schedule)
    → schedule_usable state.schedule ≡ true
    → (trip : Trip) × (s' : Session) × (save_from_state parse_float state destination_id base_lat
          base_lng user_id session_id s
        ≡ (ok (some trip), s'))
      × IsSaved user_id session_id destination_id
          (length state.schedule)
          (preferences_from_state parse_float state base_lat base_lng)
          (status_for state.plan_complete state.abort_triggered)
          (place_rows state.schedule)
          s
          s'
          trip
      × IsPreferred parse_float state base_lat base_lng trip.preferences
      × AreRowsOf (stops_of state.schedule) (place_rows state.schedule)
unfolding save_from_state
save_from_state-IsSaved parse_float state destination_id base_lat base_lng user_id session_id s
      fresh d usable =
    let preferences = preferences_from_state parse_float state base_lat base_lng in
    let (trip, s', wrote, saved) =
      write_trip-IsSaved user_id session_id destination_id (length state.schedule) preferences
        (trip_status state) (place_rows state.schedule) s fresh d in
    let some_rows : is_empty (place_rows state.schedule) ≡ false =
      filled (is_empty (place_rows state.schedule)) (sym (usable-rows state.schedule) ∙ usable) in
    (
      trip,
      s',
      rw (usable, some_rows, wrote) refl,
      subst
          (λ st.
            IsSaved user_id session_id destination_id (length state.schedule) preferences st
              (place_rows state.schedule) s s' trip)
          (trip_status-eq state) saved,
      subst (IsPreferred parse_float state base_lat base_lng) (sym saved.columns.4)
          (preferences_from_state-IsPreferred parse_float state base_lat base_lng),
      place_rows-AreRowsOf state.schedule,
    )
  where
    filled : (b : Bool) → not b ≡ true → b ≡ false
    filled b h = ground arith
