-- ===== src/Trips/Edits/Stored/Existing.antt =====
-- src/trips/service.py: the dict of the stops that a day has before an edit.
use agentic_guide_system.Prelude.{
  ℕ, ◌≤◌, ◌≡◌, refl, ap, ◌∙◌, inl, inr, Option, none, some, Bool, true, ◌&&◌, List, [], ◌∷◌, map,
  keep, count_by, ◌==◌, arith, Bool-cases,
}
use agentic_guide_system.Prelude.Dict.{Dict, get, put, get-put, nat_eq}
use agentic_guide_system.Prelude.Sort.{count_by-sort_by}
use agentic_guide_system.Trips.{TripPlace, LoadedStop, Trip, Store}
use agentic_guide_system.Trips.Repository.{
  find_by, is_stop, is_day_stop, join_place, trip_stops, load_places, before_in_trip,
}
use agentic_guide_system.Trips.Queries.{
  or_else, over, find_by-same, find_by-keep, count_by-keep, count_by-narrow, find_by-none,
  find_by-sort_by, find_by-over, count_by-map,
}
use agentic_guide_system.Trips.Days.{places_for_day}
use agentic_guide_system.Trips.Edits.{existing_by_place}
use agentic_guide_system.Trips.Edits.Stored.{IsTable}

abbrev at_place : ℕ → LoadedStop → Bool
at_place place_id tp = tp.stop.row.place_id == place_id

-- With one stop at most for a place, the dict has the stop that a query finds.
get-existing_by_place :
    (out : Dict ℕ TripPlace) (stops : List LoadedStop) (place_id : ℕ)
    → count_by (at_place place_id) stops ≤ 1
    → get (existing_by_place out stops) place_id
      ≡ or_else
          (over (λ (tp : LoadedStop). tp.stop) (find_by (at_place place_id) stops))
          (get out place_id)
unfolding existing_by_place find_by
get-existing_by_place out [] place_id h = refl
get-existing_by_place out (tp ∷ stops) place_id h =
    let later = put out tp.stop.row.place_id tp.stop in
    elim (Bool-cases (at_place place_id tp)) [
      | inl hit ↦
          get-existing_by_place later stops place_id (ground arith)
          ∙ rw
              (
                find_by-none (at_place place_id) stops (ground arith),
                get-put out tp.stop.row.place_id place_id tp.stop,
                hit,
              )
              refl
      | inr miss ↦
          get-existing_by_place later stops place_id (ground arith)
          ∙ rw (get-put out tp.stop.row.place_id place_id tp.stop, miss) refl
    ]

module _ (store : Store) (trip : Trip) (day place_id : ℕ) (h : IsTable store.trip_places) where
  abbrev kept_stop : TripPlace → Bool
  kept_stop tp = tp.row.day_number == day && tp.row.place_id == place_id

  widen :
      (tp : TripPlace)
      → (tp.trip_id == trip.id && kept_stop tp) ≡ true
      → is_stop trip.id place_id tp ≡ true
  unfolding is_stop
  widen tp e = ground arith

  narrow : count_by kept_stop (keep (λ tp. tp.trip_id == trip.id) store.trip_places) ≤ 1
  narrow =
      let all = h.one_per_place trip.id place_id in
      let fewer =
        count_by-narrow (λ tp. tp.trip_id == trip.id && kept_stop tp) (is_stop trip.id place_id)
          store.trip_places (λ tp. widen tp) in
      omega
        (arith, all, fewer, count_by-keep kept_stop (λ tp. tp.trip_id == trip.id) store.trip_places)

  reordered :
      (tp : TripPlace)
      → (tp.trip_id == trip.id && kept_stop tp) ≡ is_day_stop trip.id place_id day tp
  reordered tp = ground arith

  find_existing :
      find_by (at_place place_id) (places_for_day (load_places store trip) day)
      ≡ over (join_place store) (find_by (is_day_stop trip.id place_id day) store.trip_places)
  unfolding places_for_day load_places trip_stops join_place
  find_existing =
      let sorted = trip_stops trip.id store.trip_places in
      let of_trip = keep (λ (tp : TripPlace). tp.trip_id == trip.id) store.trip_places in
      find_by-keep (at_place place_id) (λ (tp : LoadedStop). tp.stop.row.day_number == day)
        (map (join_place store) sorted)
      ∙ find_by-over (join_place store)
          (λ (tp : LoadedStop). tp.stop.row.day_number == day && at_place place_id tp) sorted
      ∙ ap (over (join_place store)) (
          find_by-sort_by before_in_trip kept_stop of_trip narrow
          ∙ find_by-keep kept_stop (λ (tp : TripPlace). tp.trip_id == trip.id) store.trip_places
          ∙ find_by-same _ (is_day_stop trip.id place_id day) store.trip_places reordered)

  few_existing : count_by (at_place place_id) (places_for_day (load_places store trip) day) ≤ 1
  unfolding places_for_day load_places trip_stops join_place
  few_existing =
      let sorted = trip_stops trip.id store.trip_places in
      let of_trip = keep (λ (tp : TripPlace). tp.trip_id == trip.id) store.trip_places in
      omega (
        arith,
        narrow,
        count_by-keep (at_place place_id) (λ (tp : LoadedStop). tp.stop.row.day_number == day)
            (map (join_place store) sorted),
        count_by-map (join_place store)
            (λ (tp : LoadedStop). tp.stop.row.day_number == day && at_place place_id tp) sorted,
        count_by-sort_by before_in_trip kept_stop of_trip,
      )

  -- The dict has exactly the stops of the day.
  pub get-stops_before :
      get (existing_by_place [] (places_for_day (load_places store trip) day)) place_id
      ≡ find_by (is_day_stop trip.id place_id day) store.trip_places
  unfolding get join_place
  get-stops_before =
      get-existing_by_place [] (places_for_day (load_places store trip) day) place_id few_existing
      ∙ ap (λ (o : Option LoadedStop). or_else (over (λ (tp : LoadedStop). tp.stop) o) none)
          find_existing
      ∙ joined (find_by (is_day_stop trip.id place_id day) store.trip_places)
    where
      joined :
          (o : Option TripPlace)
          → or_else (over (λ (tp : LoadedStop). tp.stop) (over (join_place store) o)) none ≡ o
      joined none = refl
      joined (some tp) = refl
