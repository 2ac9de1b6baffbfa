-- ===== src/Trips/Repository.antt =====
-- src/trips/repository.py with the operations of src/core/database/base_repository.py that the trip
-- service calls, on a session with a committed and a pending state.
use Prim.Native.Nat.{compare}
use agentic_guide_system.Prelude.{
  ℕ, suc, String, Option, none, some, Bool, true, false, not, ◌&&◌, List, [], ◌∷◌, ◌++◌, map, keep,
  any, ◌==◌, if◌then◌else◌,
}
use agentic_guide_system.Prelude.Order.{and_then, at_most}
use agentic_guide_system.Prelude.Sort.{sort_by}
use agentic_guide_system.Prelude.Result.{Result, ok, err}
use agentic_guide_system.Trips.{
  EditType, Preferences, TripStatus, Place, Destination, StopRow, TripPlace, LoadedStop, Trip,
  LoadedTrip, StopSnapshot, TripEvaluation, Store, TripError, integrity_violated, trip_not_found,
  assertion_failed,
}

-- `scalar_one_or_none` of a query for one row.
unfoldable pub find_by {ℓ} : {A : Type ℓ} → (A → Bool) → List A → Option A
find_by p [] = none
find_by p (x ∷ xs) = let rest = find_by p xs in if p x then some x else rest

-- The writes that are flushed and not yet committed stand in `current`.
pub record Session : Type 0 where
  pub committed : Store
  pub current : Store

-- A method: a result or a raised error, and the session it leaves.
abbrev pub Db : Type 0 → Type 0
Db A = Session → Result TripError A × Session

abbrev pub continue :
    {A B : Type 0} → Result TripError A × Session → (A → Db B) → Result TripError B × Session
continue (ok a, s) rest = rest a s
continue (err e, s) rest = (err e, s)

infixl 5 ◌>>=◌
abbrev pub ◌>>=◌ : {A B : Type 0} → Db A → (A → Db B) → Db B
(first >>= rest) s = continue (first s) rest

-- A value or an error that is computed from the pending state.
abbrev pub reading : {A : Type 0} → (Store → Result TripError A) → Db A
reading f s = (f s.current, s)

abbrev pub writing : (Store → Store) → Db (Unit {0})
writing f s = (ok tt, record s { current = f s.current })

-- `session.commit()` and `session.rollback()`
unfoldable pub commit : Db (Unit {0})
commit s = (ok tt, record s { committed = s.current })

unfoldable pub rollback : Session → Session
rollback s = record s { current = s.committed }

abbrev pub undone : {A : Type 0} → Result TripError A × Session → Result TripError A × Session
undone (ok a, s) = (ok a, s)
undone (err e, s) = (err e, rollback s)

-- `try: ... except Exception: await session.rollback(); raise`
abbrev pub or_rollback : {A : Type 0} → Db A → Db A
or_rollback body s = undone (body s)

abbrev pub before_in_trip : TripPlace → TripPlace → Bool
before_in_trip a b = at_most (
    and_then (compare a.row.day_number b.row.day_number)
      (compare a.row.order_in_day b.row.order_in_day))

-- `selectinload`: deleted places are joined too.
unfoldable pub join_place : Store → TripPlace → LoadedStop
unfolding find_by
join_place store tp = record {
  stop = tp;
  place = find_by (λ p. p.id == tp.row.place_id) store.places;
}

abbrev pub is_live : ℕ → Trip → Bool
is_live trip_id t = t.id == trip_id && not t.is_deleted

-- `Trip.places` in its `order_by`.
unfoldable pub trip_stops : ℕ → List TripPlace → List TripPlace
unfolding sort_by
trip_stops trip_id table = sort_by before_in_trip (keep (λ tp. tp.trip_id == trip_id) table)

unfoldable pub load_places : Store → Trip → LoadedTrip
unfolding join_place trip_stops
load_places store t = record {
  trip = t;
  places = map (join_place store) (trip_stops t.id store.trip_places);
}

abbrev pub load_found : Store → Option Trip → Option LoadedTrip
load_found store none = none
load_found store (some t) = some (load_places store t)

unfoldable pub get_with_places : Store → ℕ → Option LoadedTrip
unfolding find_by
get_with_places store trip_id = load_found store (find_by (is_live trip_id) store.trips)

unfoldable pub get_destination : Store → ℕ → Option Destination
unfolding find_by
get_destination store id = find_by (λ d. d.id == id) store.destinations

unfoldable pub get_place : Store → ℕ → Option Place
unfolding find_by
get_place store id = find_by (λ p. p.id == id && not p.is_deleted) store.places

-- `create`: the trip with its fresh id.
unfoldable pub create_trip :
    Option ℕ → String → ℕ → ℕ → Preferences → TripStatus → Store → Trip × Store
create_trip user_id session_id destination_id days preferences status store =
    let trip : Trip = record {
      id = store.next_id;
      user_id = user_id;
      session_id = session_id;
      destination_id = destination_id;
      days = days;
      preferences = preferences;
      status = status;
      is_deleted = false;
    } in
    (trip, record store { trips = store.trips ++ trip ∷ []; next_id = suc store.next_id })

-- The unique constraint on `(trip_id, place_id)`.
unfoldable pub is_stop : ℕ → ℕ → TripPlace → Bool
is_stop trip_id place_id tp = tp.trip_id == trip_id && tp.row.place_id == place_id

unfoldable pub insert_row : ℕ → StopRow → Store → Store
insert_row trip_id row store = record store {
  trip_places =
      store.trip_places ++ record { id = store.next_id; trip_id = trip_id; row = row } ∷ [];
  next_id = suc store.next_id;
}

unfoldable pub create_trip_places : ℕ → List StopRow → Db (Unit {0})
unfolding insert_row is_stop
create_trip_places trip_id [] s = (ok tt, s)
create_trip_places trip_id (row ∷ rows) s =
    let rest =
      create_trip_places trip_id rows (record s { current = insert_row trip_id row s.current }) in
    if any (is_stop trip_id row.place_id) s.current.trip_places
    then (err integrity_violated, s)
    else rest

abbrev pub is_day_stop : ℕ → ℕ → ℕ → TripPlace → Bool
is_day_stop trip_id place_id day_number tp =
    tp.trip_id == trip_id && (tp.row.place_id == place_id && tp.row.day_number == day_number)

unfoldable pub delete_trip_place : ℕ → ℕ → ℕ → Store → Store
delete_trip_place trip_id place_id day_number store = record store {
  trip_places = keep (λ tp. not (is_day_stop trip_id place_id day_number tp)) store.trip_places;
}

-- The assignments to the attributes of a stop and their flush.
unfoldable pub update_row : ℕ → StopRow → Store → Store
update_row id row store = record store {
  trip_places = map (λ tp. if tp.id == id then record tp { row = row } else tp) store.trip_places;
}

unfoldable pub insert_edit_event :
    ℕ → EditType → ℕ → Option ℕ → List StopSnapshot → List StopSnapshot → Store → Store
insert_edit_event trip_id edit_type day_number place_id before after store = record store {
  trip_edit_events =
      store.trip_edit_events
      ++ record {
        id = store.next_id;
        trip_id = trip_id;
        edit_type = edit_type;
        day_number = day_number;
        place_id = place_id;
        before = before;
        after = after;
      }
        ∷ [];
  next_id = suc store.next_id;
}

abbrev same_trip : Option ℕ → ℕ → Bool
same_trip none trip_id = false
same_trip (some id) trip_id = id == trip_id

-- `get_latest_for_trip` with `mark_user_edited` on its row, where it is not marked.
unfoldable pub mark_latest : ℕ → List TripEvaluation → Option (List TripEvaluation)
mark_latest trip_id [] = none
mark_latest trip_id (e ∷ es) = elim (mark_latest trip_id es) [
  | some marked ↦ some (e ∷ marked)
  | none ↦ if same_trip e.trip_id trip_id then some (record e { user_edited = true } ∷ es) else none
]

abbrev or_same : List TripEvaluation → Option (List TripEvaluation) → List TripEvaluation
or_same es none = es
or_same es (some marked) = marked

unfoldable pub mark_trip_edited : ℕ → Store → Store
unfolding mark_latest
mark_trip_edited trip_id store = record store {
  trip_evaluations = or_same store.trip_evaluations (mark_latest trip_id store.trip_evaluations);
}

-- `soft_delete`: the row gets its `deleted_at`.
unfoldable pub mark_deleted : ℕ → Store → Store
mark_deleted trip_id store = record store {
  trips = map (λ t. if is_live trip_id t then record t { is_deleted = true } else t) store.trips;
}

abbrev pub found_or {ℓ} : {A : Type ℓ} → TripError → Option A → Result TripError A
found_or e none = err e
found_or e (some a) = ok a

unfoldable pub soft_delete : ℕ → Db (Unit {0})
unfolding find_by mark_deleted
soft_delete trip_id = do
  _ ← reading (λ store. found_or (trip_not_found trip_id) (find_by (is_live trip_id) store.trips))
  writing (mark_deleted trip_id)

-- The load of a trip by its id, or 404.
unfoldable pub load_or_404 : ℕ → Store → Result TripError LoadedTrip
unfolding get_with_places
load_or_404 trip_id store = found_or (trip_not_found trip_id) (get_with_places store trip_id)

-- The load after a commit, and the `assert` that it gives a trip.
unfoldable pub reload : ℕ → Db LoadedTrip
unfolding get_with_places
reload trip_id = reading (λ store. found_or assertion_failed (get_with_places store trip_id))
