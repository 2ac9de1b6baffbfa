-- ===== src/Trips/Edits/Stored/Deleted.antt =====
-- src/trips/service.py: the table of stops after the loop of `_persist_day_and_audit` that deletes.
use agentic_guide_system.Prelude.{
  ℕ, ◌≤◌, ◌≡◌, refl, ◌∙◌, inl, inr, some, Bool, true, false, not, ◌&&◌, ◌||◌, List, [], ◌∷◌,
  count_by, ◌==◌, arith, Bool-cases, Option-cases,
}
use agentic_guide_system.Prelude.Dict.{Dict, get, nat_eq}
use agentic_guide_system.Prelude.Dict.Keys.{keep_some}
use agentic_guide_system.Trips.{TripPlace, Store}
use agentic_guide_system.Trips.Repository.{find_by, is_stop, is_day_stop, delete_trip_place}
use agentic_guide_system.Trips.Found.{find_by-true}
use agentic_guide_system.Trips.Queries.{
  find_by-same, find_by-keep, find_by-and, count_by-keep, count_by-narrow,
}
use agentic_guide_system.Trips.Plans.{contains_id}
use agentic_guide_system.Trips.Edits.{delete_unless, delete_unscheduled}
use agentic_guide_system.Trips.Edits.Stored.{IsTable, row_at, off_day}

module _ (trip_id day : ℕ) (scheduled : List ℕ) where
  -- The stops that no iteration deletes.
  abbrev survives : Dict ℕ TripPlace → TripPlace → Bool
  survives [] tp = true
  survives ((pid, _) ∷ rest) tp =
      (contains_id scheduled pid || not (is_day_stop trip_id pid day tp)) && survives rest tp

  find_by-unless :
      (stays : Bool) (pid : ℕ) (q : TripPlace → Bool) (store : Store)
      → find_by q (delete_unless stays trip_id pid day store).trip_places
        ≡ find_by (λ tp. (stays || not (is_day_stop trip_id pid day tp)) && q tp) store.trip_places
  unfolding delete_unless delete_trip_place
  find_by-unless true pid q store = refl
  find_by-unless false pid q store =
      find_by-keep q (λ tp. not (is_day_stop trip_id pid day tp)) store.trip_places

  count_by-unless :
      (stays : Bool) (pid : ℕ) (q : TripPlace → Bool) (store : Store)
      → count_by q (delete_unless stays trip_id pid day store).trip_places
        ≤ count_by q store.trip_places
  unfolding delete_unless delete_trip_place
  count_by-unless true pid q store = omega arith
  count_by-unless false pid q store =
      let kept : TripPlace → Bool = λ tp. not (is_day_stop trip_id pid day tp) in
      omega (
        arith,
        count_by-keep q kept store.trip_places,
        count_by-narrow (λ tp. kept tp && q tp) q store.trip_places (λ tp h. ground arith),
      )

  find_by-delete :
      (q : TripPlace → Bool) (existing : Dict ℕ TripPlace) (store : Store)
      → find_by q (delete_unscheduled trip_id day scheduled existing store).trip_places
        ≡ find_by (λ tp. survives existing tp && q tp) store.trip_places
  unfolding delete_unscheduled
  find_by-delete q [] store = refl
  find_by-delete q ((pid, old) ∷ rest) store =
      let stays = contains_id scheduled pid in
      find_by-delete q rest (delete_unless stays trip_id pid day store)
      ∙ find_by-unless stays pid (λ tp. survives rest tp && q tp) store
      ∙ find_by-same
          (λ tp. (stays || not (is_day_stop trip_id pid day tp)) && (survives rest tp && q tp))
          (λ tp. survives ((pid, old) ∷ rest) tp && q tp) store.trip_places
          (λ tp. assoc (stays || not (is_day_stop trip_id pid day tp)) (survives rest tp) (q tp))
    where
      assoc : (a b c : Bool) → (a && (b && c)) ≡ ((a && b) && c)
      assoc a b c = ground arith

  count_by-delete :
      (q : TripPlace → Bool) (existing : Dict ℕ TripPlace) (store : Store)
      → count_by q (delete_unscheduled trip_id day scheduled existing store).trip_places
        ≤ count_by q store.trip_places
  unfolding delete_unscheduled
  count_by-delete q [] store = omega arith
  count_by-delete q ((pid, old) ∷ rest) store =
      let stays = contains_id scheduled pid in
      omega (
        arith,
        count_by-delete q rest (delete_unless stays trip_id pid day store),
        count_by-unless stays pid q store,
      )

  pub delete_unscheduled-IsTable :
      (existing : Dict ℕ TripPlace) (store : Store)
      → IsTable store.trip_places
      → IsTable (delete_unscheduled trip_id day scheduled existing store).trip_places
  delete_unscheduled-IsTable existing store h = record {
    one_per_place =
        λ t p. omega (arith, count_by-delete (is_stop t p) existing store, h.one_per_place t p);
    one_per_id =
        λ i. omega (arith, count_by-delete (λ tp. tp.id == i) existing store, h.one_per_id i);
  }

  pub turned :
      (p : ℕ) (tp : TripPlace)
      → is_day_stop trip_id p day tp ≡ ((tp.row.day_number == day) && is_stop trip_id p tp)
  unfolding is_stop
  turned p tp = ground arith

  day_stop :
      (p : ℕ) (tp : TripPlace)
      → is_stop trip_id p tp ≡ true
      → (tp.row.day_number == day) ≡ true
      → is_day_stop trip_id p day tp ≡ true
  day_stop p tp here on_day = turned p tp ∙ rw (here, on_day) refl

  elsewhere_lem :
      (pid : ℕ) (tp : TripPlace)
      → (tp.row.day_number == day) ≡ false
      → is_day_stop trip_id pid day tp ≡ false
  elsewhere_lem pid tp elsewhere = ground arith

  survives-true :
      (existing : Dict ℕ TripPlace) (tp : TripPlace)
      → ((pid : ℕ) → contains_id scheduled pid ≡ false → is_day_stop trip_id pid day tp ≡ false)
      → survives existing tp ≡ true
  survives-true [] tp h = refl
  survives-true ((pid, _) ∷ rest) tp h = elim (Bool-cases (contains_id scheduled pid)) [
    | inl stays ↦ rw stays (survives-true rest tp h)
    | inr goes ↦ rw (goes, h pid goes) (survives-true rest tp h)
  ]

  survives-false :
      (existing : Dict ℕ TripPlace) (tp : TripPlace) (pid : ℕ) {old : TripPlace}
      → get existing pid ≡ some old
      → contains_id scheduled pid ≡ false
      → is_day_stop trip_id pid day tp ≡ true
      → survives existing tp ≡ false
  unfolding get
  survives-false [] tp pid e goes here = cc
  survives-false ((j, v) ∷ rest) tp pid {old} e goes here = elim (Bool-cases (j == pid)) [
    | inl same ↦ ground arith
    | inr other ↦ ground (arith, survives-false rest tp pid (rw other at e) goes here)
  ]

  module _ (existing : Dict ℕ TripPlace) (store : Store) (h : IsTable store.trip_places) where
    abbrev after : List TripPlace
    after = (delete_unscheduled trip_id day scheduled existing store).trip_places

    find_after :
        (t p : ℕ)
        → find_by (is_stop t p) after
          ≡ keep_some (survives existing) (find_by (is_stop t p) store.trip_places)
    find_after t p =
        find_by-delete (is_stop t p) existing store
        ∙ find_by-and (survives existing) (is_stop t p) store.trip_places (h.one_per_place t p)

    -- A stop of another trip, or of a scheduled place, stays.
    pub find_by-spared :
        (t p : ℕ)
        → ((tp : TripPlace)
            → is_stop t p tp ≡ true
            → (pid : ℕ) → contains_id scheduled pid ≡ false
            → is_day_stop trip_id pid day tp ≡ false)
        → find_by (is_stop t p) after ≡ find_by (is_stop t p) store.trip_places
    find_by-spared t p spared = elim (Option-cases (find_by (is_stop t p) store.trip_places)) [
      | inl gone ↦ find_after t p ∙ rw gone refl
      | inr (tp, found) ↦
          find_after t p
          ∙ rw
              (
                found,
                survives-true existing tp
                    (spared tp (find_by-true (is_stop t p) store.trip_places found)),
              )
              refl
    ]

    on_day_found :
        (p : ℕ) (tp : TripPlace)
        → find_by (is_stop trip_id p) store.trip_places ≡ some tp
        → (tp.row.day_number == day) ≡ true
        → find_by (is_day_stop trip_id p day) store.trip_places ≡ some tp
    on_day_found p tp found on_day =
        find_by-same (is_day_stop trip_id p day)
          (λ x. (x.row.day_number == day) && is_stop trip_id p x) store.trip_places (turned p)
        ∙ find_by-and (λ x. x.row.day_number == day) (is_stop trip_id p) store.trip_places
            (h.one_per_place trip_id p)
        ∙ rw (found, on_day) refl

    -- The stop of a place that is not scheduled stays on another day only.
    pub row_at-unscheduled :
        (p : ℕ)
        → contains_id scheduled p ≡ false
        → get existing p ≡ find_by (is_day_stop trip_id p day) store.trip_places
        → row_at trip_id p after ≡ off_day day (row_at trip_id p store.trip_places)
    row_at-unscheduled p goes listed =
        elim (Option-cases (find_by (is_stop trip_id p) store.trip_places)) [
          | inl gone ↦ rw (find_after trip_id p, gone) refl
          | inr (tp, found) ↦ elim (Bool-cases (tp.row.day_number == day)) [
            | inl on_day ↦
                let out =
                  survives-false existing tp p (listed ∙ on_day_found p tp found on_day) goes (
                    day_stop p tp (find_by-true (is_stop trip_id p) store.trip_places found)
                      on_day) in
                rw (find_after trip_id p, found, out, on_day) refl
            | inr elsewhere ↦
                let kept = survives-true existing tp (λ pid _. elsewhere_lem pid tp elsewhere) in
                rw (find_after trip_id p, found, kept, elsewhere) refl
          ]
        ]
