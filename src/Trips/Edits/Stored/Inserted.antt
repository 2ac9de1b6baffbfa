-- ===== src/Trips/Edits/Stored/Inserted.antt =====
-- src/trips/repository.py: the table of stops after `create_trip_places`.
use agentic_guide_system.Prelude.{
  ℕ, ◌≡◌, refl, ap, ◌∙◌, subst, inl, inr, Option, none, some, Bool, true, false, ◌&&◌, List, [],
  ◌∷◌, any, ◌==◌, ==_iff, Bool-cases, if◌then◌else◌,
}
use agentic_guide_system.Prelude.Result.{Result, ok}
use agentic_guide_system.Trips.{StopRow, TripPlace, Store, TripError}
use agentic_guide_system.Trips.Repository.{
  Session, find_by, is_stop, insert_row, create_trip_places,
}
use agentic_guide_system.Trips.Queries.{over, or_else, find_by-append, find_by-any}
use agentic_guide_system.Trips.Edits.Stored.{row_at, row_for, HasDistinctPlaces}

abbrev only_if : Bool → Option StopRow → Option StopRow
only_if true o = o
only_if false o = none

-- What an insertion that succeeds makes of the view: the new rows of the trip, and the old rows.
pub record IsInserted (trip_id : ℕ) (rows : List StopRow) (before after : List TripPlace)
    : Type 0 where
  pub other_trips : (t q : ℕ) → (trip_id == t) ≡ false → row_at t q after ≡ row_at t q before
  pub same_trip :
      (q : ℕ) → row_at trip_id q after ≡ or_else (row_for q rows) (row_at trip_id q before)

over-or_else :
    (a b : Option TripPlace)
    → over (λ tp. tp.row) (or_else a b) ≡ or_else (over (λ tp. tp.row) a) (over (λ tp. tp.row) b)
over-or_else none b = refl
over-or_else (some tp) b = refl

pub or_else-none : (a : Option StopRow) → or_else a none ≡ a
or_else-none none = refl
or_else-none (some row) = refl

single :
    (of_trip at_place : Bool) (tp : TripPlace)
    → over (λ x. x.row) (if of_trip && at_place then some tp else none)
      ≡ only_if of_trip (if at_place then some tp.row else none)
single true true tp = refl
single true false tp = refl
single false at_place tp = refl

module _ (trip_id : ℕ) where
  row_at-insert :
      (row : StopRow) (store : Store) (t q : ℕ)
      → row_at t q (insert_row trip_id row store).trip_places
        ≡ or_else (row_at t q store.trip_places) (only_if (trip_id == t) (row_for q (row ∷ [])))
  unfolding insert_row find_by is_stop
  row_at-insert row store t q =
      let new : TripPlace = record { id = store.next_id; trip_id = trip_id; row = row } in
      rw (find_by-append (is_stop t q) store.trip_places (new ∷ [])) (
        over-or_else (find_by (is_stop t q) store.trip_places) (find_by (is_stop t q) (new ∷ []))
        ∙ ap (or_else (row_at t q store.trip_places))
            (single (trip_id == t) (row.place_id == q) new))

  pub create_trip_places-IsInserted :
      (rows : List StopRow) (s : Session) {s' : Session}
      → HasDistinctPlaces rows
      → create_trip_places trip_id rows s ≡ (ok tt, s')
      → IsInserted trip_id rows s.current.trip_places s'.current.trip_places
  unfolding create_trip_places find_by
  create_trip_places-IsInserted [] s {s'} d e =
      subst (λ (u : Session). IsInserted trip_id [] s.current.trip_places u.current.trip_places)
        (ap (λ (t : Result TripError (Unit {0}) × Session). t.1) e)
        (record { other_trips = λ t q differs. refl; same_trip = λ q. refl })
  create_trip_places-IsInserted (row ∷ rows) s {s'} d e =
      elim (Bool-cases (any (is_stop trip_id row.place_id) s.current.trip_places)) [
        | inl clash ↦ cc (rw clash at e)
        | inr free ↦
            let mid : Session = record s { current = insert_row trip_id row s.current } in
            let rest = create_trip_places-IsInserted rows mid d.1 (rw free at e) in
            record {
              other_trips = λ t q differs.
                  rest.other_trips t q differs
                  ∙ row_at-insert row s.current t q
                  ∙ rw differs (or_else-none (row_at t q s.current.trip_places));
              same_trip = λ q.
                  rest.same_trip q
                  ∙ rw (row_at-insert row s.current trip_id q, (==_iff trip_id trip_id).1 refl)
                      (inserted q free);
            }
      ]
    where
      inserted :
          (q : ℕ)
          → any (is_stop trip_id row.place_id) s.current.trip_places ≡ false
          → or_else
              (row_for q rows)
              (or_else (row_at trip_id q s.current.trip_places) (row_for q (row ∷ [])))
            ≡ or_else (row_for q (row ∷ rows)) (row_at trip_id q s.current.trip_places)
      inserted q free = elim (Bool-cases (row.place_id == q)) [
        | inr other ↦ rw other (rw (or_else-none (row_at trip_id q s.current.trip_places)) refl)
        | inl same ↦
            let place = (==_iff row.place_id q).0 same in
            let no_row = subst (λ p. row_for p rows ≡ none) place d.0 in
            let no_stop =
              subst (λ p. find_by (is_stop trip_id p) s.current.trip_places ≡ none) place
                (find_by-any (is_stop trip_id row.place_id) s.current.trip_places free) in
            rw (no_row, no_stop, same) refl
      ]
