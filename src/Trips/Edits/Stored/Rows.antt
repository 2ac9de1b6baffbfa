-- ===== src/Trips/Edits/Stored/Rows.antt =====
-- src/trips/service.py: the rows of an edit, those of them that are new, and the dict of the stops
-- that stay.
use agentic_guide_system.Prelude.{
  ℕ, suc, ◌≡◌, refl, ap, ◌∙◌, inl, inr, Option, none, some, Bool, true, false, List, [], ◌∷◌, map,
  ◌==◌, ==_iff, Bool-cases, if_ind, if◌then◌else◌, String,
}
use agentic_guide_system.Prelude.Dict.{Dict, get, nat_eq}
use agentic_guide_system.Travel.Route.{Lookup}
use agentic_guide_system.Travel.Schedule.{ScheduledStop}
use agentic_guide_system.Trips.{StopRow, TripPlace}
use agentic_guide_system.Trips.Repository.{find_by}
use agentic_guide_system.Trips.Plans.{contains_id}
use agentic_guide_system.Trips.Edits.{
  DayEdit, scheduled_rows, edit_rows, scheduled_ids, still_scheduled, new_rows, is_none,
}
use agentic_guide_system.Trips.Edits.Stored.{row_for, HasDistinctPlaces}

abbrev pub is_some {ℓ} : {A : Type ℓ} → Option A → Bool
is_some none = false
is_some (some a) = true

scheduled_rows-ids :
    (lookup : Lookup) (poly_map : Dict ℕ (Option String)) (day order prev q : ℕ)
    (stops : List ScheduledStop)
    → is_some (row_for q (scheduled_rows lookup poly_map day order prev stops))
      ≡ contains_id (map (λ stop. stop.place.id) stops) q
unfolding scheduled_rows find_by
scheduled_rows-ids lookup poly_map day order prev q [] = refl
scheduled_rows-ids lookup poly_map day order prev q (stop ∷ stops) =
    let rest = scheduled_rows-ids lookup poly_map day (suc order) stop.place.id q stops in
    elim (Bool-cases (stop.place.id == q)) [ inl same ↦ rw same refl | inr other ↦ rw other rest ]

-- There is a row for exactly the scheduled places.
pub edit_rows-ids :
    (edit : DayEdit) (q : ℕ)
    → is_some (row_for q (edit_rows edit)) ≡ contains_id (scheduled_ids edit) q
unfolding edit_rows
edit_rows-ids edit q = scheduled_rows-ids _ _ edit.day 1 _ q edit.scheduled

pub get-still_scheduled :
    (scheduled : List ℕ) (existing : Dict ℕ TripPlace) (q : ℕ)
    → get (still_scheduled scheduled existing) q
      ≡ (if contains_id scheduled q then get existing q else none)
unfolding get
get-still_scheduled scheduled [] q =
    if_ind (λ (o : Option TripPlace). none ≡ o) (contains_id scheduled q) refl refl
get-still_scheduled scheduled ((j, tp) ∷ rest) q =
    let more = get-still_scheduled scheduled rest q in
    elim (Bool-cases (j == q)) [
      | inl same ↦ elim (Bool-cases (contains_id scheduled q)) [
        | inl stays ↦ rw (moved same stays, stays, same) refl
        | inr goes ↦ rw (moved same goes, goes) (rw goes at more)
      ]
      | inr other ↦ elim (Bool-cases (contains_id scheduled j)) [
        | inl stays ↦ rw (stays, other) more
        | inr goes ↦ rw (goes, other) more
      ]
    ]
  where
    moved : (j == q) ≡ true → {b : Bool} → contains_id scheduled q ≡ b → contains_id scheduled j ≡ b
    moved same e = ap (contains_id scheduled) ((==_iff j q).0 same) ∙ e

pub row_for-new_rows :
    (existing : Dict ℕ TripPlace) (rows : List StopRow) (q : ℕ)
    → row_for q (new_rows existing rows)
      ≡ (if is_none (get existing q) then row_for q rows else none)
unfolding new_rows find_by
row_for-new_rows existing [] q =
    if_ind (λ (o : Option StopRow). none ≡ o) (is_none (get existing q)) refl refl
row_for-new_rows existing (row ∷ rows) q =
    let more = row_for-new_rows existing rows q in
    elim (Bool-cases (row.place_id == q)) [
      | inl same ↦ elim (Bool-cases (is_none (get existing q))) [
        | inl fresh ↦ rw (moved same fresh, fresh, same) refl
        | inr old ↦ rw (moved same old, old) (rw old at more)
      ]
      | inr other ↦ elim (Bool-cases (is_none (get existing row.place_id))) [
        | inl fresh ↦ rw (fresh, other) more
        | inr old ↦ rw (old, other) more
      ]
    ]
  where
    moved :
        (row.place_id == q) ≡ true
        → {b : Bool} → is_none (get existing q) ≡ b
        → is_none (get existing row.place_id) ≡ b
    moved same e = ap (λ p. is_none (get existing p)) ((==_iff row.place_id q).0 same) ∙ e

pub new_rows-HasDistinctPlaces :
    (existing : Dict ℕ TripPlace) (rows : List StopRow)
    → HasDistinctPlaces rows
    → HasDistinctPlaces (new_rows existing rows)
unfolding new_rows find_by
new_rows-HasDistinctPlaces existing [] d = tt
new_rows-HasDistinctPlaces existing (row ∷ rows) d =
    let rest = new_rows-HasDistinctPlaces existing rows d.1 in
    if_ind HasDistinctPlaces (is_none (get existing row.place_id)) (alone, rest) rest
  where
    alone : row_for row.place_id (new_rows existing rows) ≡ none
    alone =
        row_for-new_rows existing rows row.place_id
        ∙ if_ind (λ (o : Option StopRow). o ≡ none) (is_none (get existing row.place_id)) d.0 refl
