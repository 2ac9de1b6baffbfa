-- ===== src/Trips/Edits/Untouched.antt =====
-- src/trips/service.py: what the writes to the table of stops leave alone.
use agentic_guide_system.Prelude.{
  ℕ, ◌≡◌, refl, ◌∙◌, Option, none, some, Bool, true, false, List, [], ◌∷◌, any, if_ind,
}
use agentic_guide_system.Prelude.Result.{Result}
use agentic_guide_system.Prelude.Dict.{Dict, get, nat_eq}
use agentic_guide_system.Trips.{StopRow, TripPlace, Store, TripError}
use agentic_guide_system.Trips.Repository.{
  Session, create_trip_places, insert_row, is_stop, delete_trip_place, update_row,
}
use agentic_guide_system.Trips.Plans.{DayEdit, contains_id}
use agentic_guide_system.Trips.Edits.{
  delete_unless, delete_unscheduled, update_found, update_existing, staying, stops_before,
  scheduled_ids, edit_rows, rewrite_stops,
}

-- A part of the store that the table of stops and the next id do not belong to.
module _ {X : Type 0} (part : Store → X) where
  abbrev pub Elsewhere : Type 0
  Elsewhere =
      (store : Store) (table : List TripPlace) (n : ℕ)
      → part (record store { trip_places = table; next_id = n }) ≡ part store

  module _ (elsewhere : Elsewhere) where
    delete_unless-part :
        (stays : Bool) (trip_id place_id day : ℕ) (store : Store)
        → part (delete_unless stays trip_id place_id day store) ≡ part store
    unfolding delete_unless delete_trip_place
    delete_unless-part true trip_id place_id day store = refl
    delete_unless-part false trip_id place_id day store = elsewhere store _ store.next_id

    delete_unscheduled-part :
        (trip_id day : ℕ) (ids : List ℕ) (existing : Dict ℕ TripPlace) (store : Store)
        → part (delete_unscheduled trip_id day ids existing store) ≡ part store
    unfolding delete_unscheduled
    delete_unscheduled-part trip_id day ids [] store = refl
    delete_unscheduled-part trip_id day ids ((pid, tp) ∷ rest) store =
        delete_unscheduled-part trip_id day ids rest _
        ∙ delete_unless-part (contains_id ids pid) trip_id pid day store

    update_found-part :
        (found : Option TripPlace) (row : StopRow) (store : Store)
        → part (update_found found row store) ≡ part store
    unfolding update_found update_row
    update_found-part none row store = refl
    update_found-part (some tp) row store = elsewhere store _ store.next_id

    update_existing-part :
        (existing : Dict ℕ TripPlace) (rows : List StopRow) (store : Store)
        → part (update_existing existing rows store) ≡ part store
    unfolding update_existing
    update_existing-part existing [] store = refl
    update_existing-part existing (row ∷ rows) store =
        update_existing-part existing rows (update_found (get existing row.place_id) row store)
        ∙ update_found-part (get existing row.place_id) row store

    pub rewrite_stops-part :
        (edit : DayEdit) (store : Store) → part (rewrite_stops edit store) ≡ part store
    unfolding rewrite_stops
    rewrite_stops-part edit store =
        update_existing-part (staying edit) (edit_rows edit) _
        ∙ delete_unscheduled-part edit.trip.trip.id edit.day (scheduled_ids edit)
            (stops_before edit) store

    -- An insertion leaves the committed state alone too.
    pub create_trip_places-part :
        (trip_id : ℕ) (rows : List StopRow) (s : Session)
        → ((create_trip_places trip_id rows s).1.committed ≡ s.committed)
          × (part (create_trip_places trip_id rows s).1.current ≡ part s.current)
    unfolding create_trip_places insert_row
    create_trip_places-part trip_id [] s = (refl, refl)
    create_trip_places-part trip_id (row ∷ rows) s =
        let (c, p) =
          create_trip_places-part trip_id rows
            (record s { current = insert_row trip_id row s.current }) in
        if_ind
          (λ (out : Result TripError (Unit {0}) × Session).
            (out.1.committed ≡ s.committed) × (part out.1.current ≡ part s.current))
          (any (is_stop trip_id row.place_id) s.current.trip_places) (refl, refl)
          (c, p ∙ elsewhere s.current _ _)
