-- ===== src/Trips/Edits/Stored.antt =====
-- src/trips/service.py: the table of stops after an edit, as what it holds for each trip and place.
pub mod Existing
pub mod Deleted
pub mod Updated
pub mod Inserted
pub mod Rows
pub mod Refines
pub mod Whole
use agentic_guide_system.Prelude.{
  ℕ, ◌≤◌, ◌≡◌, Option, none, some, Bool, List, [], ◌∷◌, count_by, ◌==◌, if◌then◌else◌,
}
use agentic_guide_system.Trips.{StopRow, TripPlace}
use agentic_guide_system.Trips.Repository.{find_by, is_stop}
use agentic_guide_system.Trips.Queries.{over}

-- The unique constraint holds, and row ids are unique.
pub record IsTable (table : List TripPlace) : Type 0 where
  pub one_per_place : (trip_id place_id : ℕ) → count_by (is_stop trip_id place_id) table ≤ 1
  pub one_per_id : (id : ℕ) → count_by (λ tp. tp.id == id) table ≤ 1

-- The abstract view of a table: the values of the stop of a trip at a place.
abbrev pub row_at : ℕ → ℕ → List TripPlace → Option StopRow
row_at trip_id place_id table = over (λ tp. tp.row) (find_by (is_stop trip_id place_id) table)

-- The values that rows hold for a place.
abbrev pub row_for : ℕ → List StopRow → Option StopRow
row_for place_id rows = find_by (λ row. row.place_id == place_id) rows

abbrev off_day : ℕ → Option StopRow → Option StopRow
off_day day none = none
off_day day (some row) = if row.day_number == day then none else some row

-- What an edit of a day makes of the stop at a place: the new row where there is one; otherwise a
-- stop of that day is gone and a stop of another day stays.
abbrev pub after_edit : ℕ → Option StopRow → Option StopRow → Option StopRow
after_edit day (some new) old = some new
after_edit day none old = off_day day old

-- No two rows are for one place.
abbrev pub HasDistinctPlaces : List StopRow → Type 0
HasDistinctPlaces [] = Unit
HasDistinctPlaces (row ∷ rows) = (row_for row.place_id rows ≡ none) × HasDistinctPlaces rows
