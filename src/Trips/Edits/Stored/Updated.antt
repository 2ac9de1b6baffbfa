-- ===== src/Trips/Edits/Stored/Updated.antt =====
-- src/trips/service.py: the table of stops after the updates of `_persist_day_and_audit`.
use agentic_guide_system.Prelude.{
  ℕ, ◌≤◌, ◌≡◌, refl, ap, ◌∙◌, subst, inl, inr, Option, none, some, Bool, true, false, ◌&&◌, List,
  [], ◌∷◌, All, All-map, count_by, ◌==◌, ==_iff, arith, Bool-cases, Option-cases, some-eq-some,
  if◌then◌else◌,
}
use agentic_guide_system.Prelude.Dict.{Dict, get, nat_eq}
use agentic_guide_system.Trips.{StopRow, TripPlace, Store}
use agentic_guide_system.Trips.Repository.{find_by, is_stop, update_row}
use agentic_guide_system.Trips.Found.{find_by-true}
use agentic_guide_system.Trips.Queries.{over, or_else, find_by-over, count_by-map}
use agentic_guide_system.Trips.Edits.{update_found, update_existing}
use agentic_guide_system.Trips.Edits.Stored.{IsTable, row_at, row_for, HasDistinctPlaces}

module _ {ℓ} {A : Type ℓ} where
  found-counts :
      (q r : A → Bool) (xs : List A) {x : A}
      → find_by q xs ≡ some x
      → r x ≡ true
      → 1 ≤ count_by r xs
  unfolding find_by
  found-counts q r [] e h = cc
  found-counts q r (y ∷ ys) {x} e h = elim (Bool-cases (q y)) [
    | inl hit ↦ let here : r y ≡ true = ap r (some-eq-some y x (rw hit at e)) ∙ h in ground arith
    | inr miss ↦ ground (arith, found-counts q r ys (rw miss at e) h)
  ]

  count-none : (r : A → Bool) (xs : List A) → count_by r xs ≡ 0 → All (λ y. r y ≡ false) xs
  count-none r [] e = tt
  count-none r (y ∷ ys) e = elim (Bool-cases (r y)) [
    | inl hit ↦ ground arith
    | inr miss ↦ (miss, count-none r ys (rw miss at e))
  ]

  find_by-All {κ} :
      (P : A → Type κ) (q : A → Bool) (xs : List A) {x : A} → All P xs → find_by q xs ≡ some x → P x
  unfolding find_by
  find_by-All P q [] h e = cc
  find_by-All P q (y ∷ ys) {x} h e = elim (Bool-cases (q y)) [
    | inl hit ↦ subst P (some-eq-some y x (rw hit at e)) h.0
    | inr miss ↦ find_by-All P q ys h.1 (rw miss at e)
  ]

  find_by-agree :
      (p q : A → Bool) (xs : List A) → All (λ x. p x ≡ q x) xs → find_by p xs ≡ find_by q xs
  unfolding find_by
  find_by-agree p q [] h = refl
  find_by-agree p q (x ∷ xs) h = ground (arith, h.0, find_by-agree p q xs h.1)

  count_by-agree :
      (p q : A → Bool) (xs : List A) → All (λ x. p x ≡ q x) xs → count_by p xs ≡ count_by q xs
  count_by-agree p q [] h = refl
  count_by-agree p q (x ∷ xs) h = ground (arith, h.0, count_by-agree p q xs h.1)

-- A row with the id is the stop of the trip at the place.
abbrev IsAt : ℕ → ℕ → ℕ → TripPlace → Type 0
IsAt trip_id place_id id tp = (tp.id == id) ≡ true → is_stop trip_id place_id tp ≡ true

-- The id of the stop at a place identifies it.
id-IsAt :
    (trip_id place_id : ℕ) (table : List TripPlace) (x : TripPlace)
    → find_by (is_stop trip_id place_id) table ≡ some x
    → count_by (λ tp. tp.id == x.id) table ≤ 1
    → All (IsAt trip_id place_id x.id) table
unfolding find_by
id-IsAt trip_id place_id [] x e h = cc
id-IsAt trip_id place_id (y ∷ ys) x e h = elim (Bool-cases (is_stop trip_id place_id y)) [
  | inl hit ↦
      let same = ap (λ (tp : TripPlace). tp.id) (some-eq-some y x (rw hit at e)) in
      let is_x : (y.id == x.id) ≡ true = (==_iff y.id x.id).1 same in
      let others = count-none (λ (tp : TripPlace). tp.id == x.id) ys (ground arith) in
      (
        (λ _. hit),
        All-map (λ (tp : TripPlace). (tp.id == x.id) ≡ false) (IsAt trip_id place_id x.id)
            (λ tp differs same. cc) ys others,
      )
  | inr miss ↦
      let e' = rw miss at e in
      let there =
        found-counts (is_stop trip_id place_id) (λ tp. tp.id == x.id) ys e'
          ((==_iff x.id x.id).1 refl) in
      let other : (y.id == x.id) ≡ false = ground arith in
      ((λ same. cc), id-IsAt trip_id place_id ys x e' (ground arith))
]

module _ (trip_id : ℕ) (x : TripPlace) (row : StopRow) where
  abbrev assign : TripPlace → TripPlace
  assign tp = if tp.id == x.id then record tp { row = row } else tp

  -- An assignment keeps the trip and the place of every row.
  assign-is_stop :
      (t q : ℕ) (tp : TripPlace)
      → IsAt trip_id row.place_id x.id tp
      → is_stop t q (assign tp) ≡ is_stop t q tp
  unfolding is_stop
  assign-is_stop t q tp h = elim (Bool-cases (tp.id == x.id)) [
    | inl same ↦ rw same (at_place (h same))
    | inr other ↦ rw other refl
  ]
    where
      at_place :
          (tp.trip_id == trip_id && tp.row.place_id == row.place_id) ≡ true
          → (tp.trip_id == t && row.place_id == q) ≡ (tp.trip_id == t && tp.row.place_id == q)
      at_place e = ground arith

  module _ (store : Store) (at : All (IsAt trip_id row.place_id x.id) store.trip_places) where
    abbrev table : List TripPlace
    table = (update_row x.id row store).trip_places

    agree : (t q : ℕ) → All (λ tp. is_stop t q (assign tp) ≡ is_stop t q tp) store.trip_places
    agree t q =
        All-map (IsAt trip_id row.place_id x.id) (λ tp. is_stop t q (assign tp) ≡ is_stop t q tp)
          (λ tp h. assign-is_stop t q tp h) store.trip_places at

    update_row-IsTable : IsTable store.trip_places → IsTable table
    unfolding update_row
    update_row-IsTable h = record {
      one_per_place = λ t q. omega (
        arith,
        h.one_per_place t q,
        count_by-map assign (is_stop t q) store.trip_places,
        count_by-agree (λ tp. is_stop t q (assign tp)) (is_stop t q) store.trip_places (agree t q),
      );
      one_per_id = λ i. omega (
        arith,
        h.one_per_id i,
        count_by-map assign (λ tp. tp.id == i) store.trip_places,
        count_by-agree (λ tp. (assign tp).id == i) (λ tp. tp.id == i) store.trip_places
            (All-map (IsAt trip_id row.place_id x.id) (λ tp. ((assign tp).id == i) ≡ (tp.id == i))
              (λ tp _. same_id i tp) store.trip_places at),
      );
    }
      where
        same_id : (i : ℕ) (tp : TripPlace) → ((assign tp).id == i) ≡ (tp.id == i)
        same_id i tp = ground arith

    find_by-update :
        (t q : ℕ)
        → find_by (is_stop t q) table ≡ over assign (find_by (is_stop t q) store.trip_places)
    unfolding update_row
    find_by-update t q =
        find_by-over assign (is_stop t q) store.trip_places
        ∙ ap (over assign) (
            find_by-agree (λ tp. is_stop t q (assign tp)) (is_stop t q) store.trip_places
              (agree t q))

    assign-other :
        (t q : ℕ) (z : TripPlace)
        → (trip_id == t && row.place_id == q) ≡ false
        → is_stop t q z ≡ true
        → IsAt trip_id row.place_id x.id z
        → assign z ≡ z
    unfolding is_stop
    assign-other t q z differs here h = elim (Bool-cases (z.id == x.id)) [
      | inl same ↦ absurd (clash (h same))
      | inr other ↦ rw other refl
    ]
      where
        clash : (z.trip_id == trip_id && z.row.place_id == row.place_id) ≡ true → ⊥
        clash e = ground arith

    -- The view changes at the one place.
    row_at-update-other :
        (t q : ℕ)
        → (trip_id == t && row.place_id == q) ≡ false
        → row_at t q table ≡ row_at t q store.trip_places
    row_at-update-other t q differs =
        elim (Option-cases (find_by (is_stop t q) store.trip_places)) [
          | inl gone ↦ rw (find_by-update t q, gone) refl
          | inr (z, found) ↦
              let kept =
                assign-other t q z differs (find_by-true (is_stop t q) store.trip_places found) (
                  find_by-All (IsAt trip_id row.place_id x.id) (is_stop t q) store.trip_places at
                    found) in
              rw (find_by-update t q, found) (ap (λ (tp : TripPlace). some tp.row) kept)
        ]

    row_at-update :
        find_by (is_stop trip_id row.place_id) store.trip_places ≡ some x
        → row_at trip_id row.place_id table ≡ some row
    row_at-update found =
        rw (find_by-update trip_id row.place_id, found, (==_iff x.id x.id).1 refl) refl

    linked-update :
        (t q : ℕ) (y : TripPlace)
        → find_by (is_stop t q) store.trip_places ≡ some y
        → (z : TripPlace) × (find_by (is_stop t q) table ≡ some z) × (z.id ≡ y.id)
    linked-update t q y found = (assign y, find_by-update t q ∙ ap (over assign) found, same_id)
      where
        same_id : (assign y).id ≡ y.id
        same_id = ground arith

-- Each entry of the dict is the row of the trip at its place.
abbrev pub IsLinked : ℕ → Dict ℕ TripPlace → List TripPlace → Type 0
IsLinked trip_id existing table =
    (p : ℕ) (tp : TripPlace)
    → get existing p ≡ some tp
    → (y : TripPlace) × (find_by (is_stop trip_id p) table ≡ some y) × (y.id ≡ tp.id)

-- What the loop of updates makes of the view: the row of each place that the dict has, where there is
-- one, and nothing else.
pub record IsUpdated (trip_id : ℕ) (existing : Dict ℕ TripPlace) (rows : List StopRow)
    (before after : List TripPlace) : Type 0 where
  pub is_table : IsTable after
  pub other_trips : (t q : ℕ) → (trip_id == t) ≡ false → row_at t q after ≡ row_at t q before
  pub absent : (q : ℕ) → get existing q ≡ none → row_at trip_id q after ≡ row_at trip_id q before
  pub present :
      (q : ℕ) (tp : TripPlace)
      → get existing q ≡ some tp
      → row_at trip_id q after ≡ or_else (row_for q rows) (row_at trip_id q before)

module _ (trip_id : ℕ) (existing : Dict ℕ TripPlace) where
  -- One iteration, with the dict still linked.
  abbrev IsStep : StopRow → Store → Store → Type 0
  IsStep row store store' =
      IsUpdated trip_id existing (row ∷ []) store.trip_places store'.trip_places
      × IsLinked trip_id existing store'.trip_places

  other_place :
      (q : ℕ) (row : StopRow) {tp : TripPlace}
      → get existing row.place_id ≡ none
      → get existing q ≡ some tp
      → (row.place_id == q) ≡ false
  other_place q row {tp} gone found = elim (Bool-cases (row.place_id == q)) [
    | inl same ↦ cc (gone, found, (==_iff row.place_id q).0 same)
    | inr other ↦ other
  ]

  update_row-IsStep :
      (row : StopRow) (store : Store) (y : TripPlace) {tp : TripPlace}
      → IsTable store.trip_places
      → IsLinked trip_id existing store.trip_places
      → get existing row.place_id ≡ some tp
      → find_by (is_stop trip_id row.place_id) store.trip_places ≡ some y
      → All (IsAt trip_id row.place_id y.id) store.trip_places
      → IsStep row store (update_row y.id row store)
  unfolding find_by
  update_row-IsStep row store y {tp} h linked found here at = (
    record {
      is_table = update_row-IsTable trip_id y row store at h;
      other_trips = λ t q differs. row_at-update-other trip_id y row store at t q (ground arith);
      absent = λ q gone.
          let differs : (row.place_id == q) ≡ false = is_other q gone in
          row_at-update-other trip_id y row store at trip_id q (ground arith);
      present = λ q other_tp there. elim (Bool-cases (row.place_id == q)) [
        | inl same ↦ rw same (
            subst (λ p. row_at trip_id p table_after ≡ some row) ((==_iff row.place_id q).0 same)
              (row_at-update trip_id y row store at here))
        | inr other ↦ rw other (row_at-update-other trip_id y row store at trip_id q (ground arith))
      ];
    },
    λ p old listed.
        let (z, there, same) = linked p old listed in
        let (z', there', same') = linked-update trip_id y row store at trip_id p z there in
        (z', there', same' ∙ same),
  )
    where
      table_after : List TripPlace
      table_after = (update_row y.id row store).trip_places

      is_other : (q : ℕ) → get existing q ≡ none → (row.place_id == q) ≡ false
      is_other q gone = elim (Bool-cases (row.place_id == q)) [
        | inl same ↦ cc (gone, found, (==_iff row.place_id q).0 same)
        | inr other ↦ other
      ]

  update_found-IsStep :
      (row : StopRow) (store : Store)
      → IsTable store.trip_places
      → IsLinked trip_id existing store.trip_places
      → IsStep row store (update_found (get existing row.place_id) row store)
  unfolding update_found find_by
  update_found-IsStep row store h linked = elim (Option-cases (get existing row.place_id)) [
    | inl gone ↦ rw gone (
      record {
        is_table = h;
        other_trips = λ t q differs. refl;
        absent = λ q none_there. refl;
        present = λ q tp found. rw (other_place q row gone found) refl;
      },
      linked,
    )
    | inr (tp, found) ↦
        let (y, here, same) = linked row.place_id tp found in
        let at = id-IsAt trip_id row.place_id store.trip_places y here (h.one_per_id y.id) in
        rw (found, ← same) (update_row-IsStep row store y h linked found here at)
  ]

  IsUpdated-next :
      (row : StopRow) (rows : List StopRow) (before mid after : List TripPlace)
      → row_for row.place_id rows ≡ none
      → IsUpdated trip_id existing (row ∷ []) before mid
      → IsUpdated trip_id existing rows mid after
      → IsUpdated trip_id existing (row ∷ rows) before after
  unfolding find_by
  IsUpdated-next row rows before mid after alone first rest = record {
    is_table = rest.is_table;
    other_trips = λ t q differs. rest.other_trips t q differs ∙ first.other_trips t q differs;
    absent = λ q gone. rest.absent q gone ∙ first.absent q gone;
    present = λ q tp found.
        rest.present q tp found
        ∙ ap (or_else (row_for q rows)) (first.present q tp found)
        ∙ in_order q (row_at trip_id q before);
  }
    where
      in_order :
          (q : ℕ) (old : Option StopRow)
          → or_else (row_for q rows) (or_else (row_for q (row ∷ [])) old)
            ≡ or_else (row_for q (row ∷ rows)) old
      in_order q old = elim (Bool-cases (row.place_id == q)) [
        | inl same ↦
            let gone : row_for q rows ≡ none =
              subst (λ p. row_for p rows ≡ none) ((==_iff row.place_id q).0 same) alone in
            rw (gone, same) refl
        | inr other ↦ rw other refl
      ]

  pub update_existing-IsUpdated :
      (rows : List StopRow) (store : Store)
      → HasDistinctPlaces rows
      → IsTable store.trip_places
      → IsLinked trip_id existing store.trip_places
      → IsUpdated trip_id existing rows store.trip_places
          (update_existing existing rows store).trip_places
  unfolding update_existing find_by
  update_existing-IsUpdated [] store d h linked = record {
    is_table = h;
    other_trips = λ t q differs. refl;
    absent = λ q gone. refl;
    present = λ q tp found. refl;
  }
  update_existing-IsUpdated (row ∷ rows) store d h linked =
      let next : Store = update_found (get existing row.place_id) row store in
      let (first, linked') = update_found-IsStep row store h linked in
      IsUpdated-next row rows store.trip_places next.trip_places _ d.0 first
        (update_existing-IsUpdated rows next d.1 first.is_table linked')
