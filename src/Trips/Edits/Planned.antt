-- ===== src/Trips/Edits/Planned.antt =====
-- src/trips/service.py: whose trip an edit is of, and the plans that `_validate_full_trip` collects for
-- all its days.
use agentic_guide_system.Prelude.{
  ℕ, ◌≡◌, refl, sym, ap, subst, ◌⊎◌, inl, inr, Option, none, some, Bool, true, false, List, [], ◌∷◌,
  is_empty, keep, All, All-map, OneOf, ◌==◌, ==_iff, arith, Bool-cases, Option-cases, if◌then◌else◌,
}
use agentic_guide_system.Prelude.Result.{ok, err, >>=-eq-ok, ok-eq-ok}
use agentic_guide_system.Travel.Validator.{DayPlan}
use agentic_guide_system.Trips.{Trip, LoadedStop, LoadedTrip, Store, trip_forbidden}
use agentic_guide_system.Trips.Repository.{
  find_by, is_live, load_places, get_with_places, load_or_404,
}
use agentic_guide_system.Trips.Access.{is_owner}
use agentic_guide_system.Trips.Days.{places_for_day, day_plan_from_stored}
use agentic_guide_system.Trips.Plans.{
  add_day, days_present, collect_days, contains_id, load_owned_trip,
}

-- The loaded trip is a live one, and the user owns it.
pub record IsOwnedTrip (store : Store) (trip_id user_id : ℕ) (loaded : LoadedTrip) : Type 0 where
  pub trip : Trip
  pub was_live : find_by (is_live trip_id) store.trips ≡ some trip
  pub owner : trip.user_id ≡ some user_id
  pub stops : loaded ≡ load_places store trip

pub load_owned_trip-IsOwnedTrip :
    (store : Store) (trip_id user_id : ℕ) {loaded : LoadedTrip}
    → load_owned_trip store trip_id user_id ≡ ok loaded
    → IsOwnedTrip store trip_id user_id loaded
unfolding load_owned_trip load_or_404 get_with_places load_places
load_owned_trip-IsOwnedTrip store trip_id user_id {loaded} e =
    elim (Option-cases (find_by (is_live trip_id) store.trips)) [
      | inl gone ↦ cc (rw gone at e)
      | inr (t, found) ↦
          let (owned, same) = if_owned (is_owner t.user_id user_id) (rw found at e) in
          record { trip = t; was_live = found; owner = owner_is t.user_id owned; stops = same }
    ]
  where
    if_owned :
        (b : Bool) {l : LoadedTrip}
        → (if b then ok l else err trip_forbidden) ≡ ok loaded
        → (b ≡ true) × (loaded ≡ l)
    if_owned true h = (refl, sym (ok-eq-ok h))
    if_owned false h = cc

    owner_is : (owner : Option ℕ) → is_owner owner user_id ≡ true → owner ≡ some user_id
    owner_is none h = cc
    owner_is (some o) h = ap some ((==_iff o user_id).0 h)

add_day-contains :
    (n m : ℕ) (days : List ℕ) → contains_id days m ≡ true → contains_id (add_day n days) m ≡ true
add_day-contains n m [] h = cc
add_day-contains n m (d ∷ days) h = ground (arith, add_day-contains n m days)

add_day-has : (n : ℕ) (days : List ℕ) → contains_id (add_day n days) n ≡ true
add_day-has n [] = ground arith
add_day-has n (d ∷ days) = ground (arith, add_day-has n days)

pub days_present-contains :
    (mutated : ℕ) (places : List LoadedStop)
    → contains_id (days_present mutated places) mutated ≡ true
unfolding days_present
days_present-contains mutated [] = ground arith
days_present-contains mutated (tp ∷ places) =
    add_day-contains tp.stop.row.day_number mutated _ (days_present-contains mutated places)

-- The day of every stop is among the days, and has a stop.
abbrev HasDay : ℕ → List LoadedStop → LoadedStop → Type 0
HasDay mutated places tp =
    (contains_id (days_present mutated places) tp.stop.row.day_number ≡ true)
    × (is_empty (keep (λ t. t.stop.row.day_number == tp.stop.row.day_number) places) ≡ false)

days_present-All : (mutated : ℕ) (places : List LoadedStop) → All (HasDay mutated places) places
unfolding days_present
days_present-All mutated [] = tt
days_present-All mutated (tp ∷ places) = (
  (add_day-has tp.stop.row.day_number (days_present mutated places), ground arith),
  All-map (HasDay mutated places) (HasDay mutated (tp ∷ places))
      (λ t h. (
        add_day-contains tp.stop.row.day_number t.stop.row.day_number _ h.0,
        still tp t places h.1,
      ))
      places (days_present-All mutated places),
)
  where
    still :
        (x t : LoadedStop) (xs : List LoadedStop)
        → is_empty (keep (λ u. u.stop.row.day_number == t.stop.row.day_number) xs) ≡ false
        → is_empty (keep (λ u. u.stop.row.day_number == t.stop.row.day_number) (x ∷ xs)) ≡ false
    still x t xs h = ground arith

module _ (trip : LoadedTrip) (mutated : ℕ) (new_day : DayPlan) where
  -- The plans have one of the stored stops of a day.
  abbrev pub StoredPlan : List DayPlan → ℕ → Type 0
  StoredPlan plans day =
      (plan : DayPlan) × (day_plan_from_stored (places_for_day trip day) ≡ ok plan)
      × OneOf plans plan

  abbrev Collected : List DayPlan → ℕ → Type 0
  Collected plans day =
      ((day ≡ mutated) × OneOf plans new_day)
      ⊎ (((day == mutated) ≡ false)
          × ((is_empty (places_for_day trip day) ≡ true) ⊎ StoredPlan plans day))

  later :
      (plan : DayPlan) (plans : List DayPlan) (day : ℕ)
      → Collected plans day
      → Collected (plan ∷ plans) day
  later plan plans day (inl (e, m)) = inl (e, inr m)
  later plan plans day (inr (o, inl e)) = inr (o, inl e)
  later plan plans day (inr (o, inr (p, e, m))) = inr (o, inr (p, e, inr m))

  collect_days-Collected :
      (days : List ℕ) {plans : List DayPlan}
      → collect_days trip mutated new_day days ≡ ok plans
      → All (Collected plans) days
  unfolding collect_days
  collect_days-Collected [] e = tt
  collect_days-Collected (day ∷ days) {plans} e = elim (Bool-cases (day == mutated)) [
    | inl same ↦
        let (others, collected, e') =
          >>=-eq-ok (collect_days trip mutated new_day days) _ (rw same at e) in
        subst (λ ps. All (Collected ps) (day ∷ days)) (ok-eq-ok e')
          (
            inl ((==_iff day mutated).0 same, inl refl),
            All-map (Collected others) (Collected (new_day ∷ others)) (later new_day others) days
                (collect_days-Collected days collected),
          )
    | inr other ↦ elim (Bool-cases (is_empty (places_for_day trip day))) [
      | inl no_stops ↦
          (inr (other, inl no_stops), collect_days-Collected days (rw (other, no_stops) at e))
      | inr stops ↦
          let (plan, stored, e') =
            >>=-eq-ok (day_plan_from_stored (places_for_day trip day)) _ (rw (other, stops) at e) in
          let (others, collected, e'') = >>=-eq-ok (collect_days trip mutated new_day days) _ e' in
          subst (λ ps. All (Collected ps) (day ∷ days)) (ok-eq-ok e'')
            (
              inr (other, inr (plan, stored, inl refl)),
              All-map (Collected others) (Collected (plan ∷ others)) (later plan others) days
                  (collect_days-Collected days collected),
            )
    ]
  ]

  listed :
      (plans : List DayPlan) (days : List ℕ) (day : ℕ)
      → All (Collected plans) days
      → contains_id days day ≡ true
      → Collected plans day
  listed plans [] day h e = cc
  listed plans (d ∷ days) day h e = elim (Bool-cases (d == day)) [
    | inl same ↦ subst (Collected plans) ((==_iff d day).0 same) h.0
    | inr other ↦ listed plans days day h.1 (rw other at e)
  ]

  -- The plan of every stop's day is among the plans: the new one for the edited day, and the one of
  -- the stored stops for any other.
  abbrev pub IsPlanned : List DayPlan → LoadedStop → Type 0
  IsPlanned plans tp = (tp.stop.row.day_number ≡ mutated) ⊎ StoredPlan plans tp.stop.row.day_number

  pub record AreAllDays (plans : List DayPlan) : Type 0 where
    pub edited : OneOf plans new_day
    pub others : All (IsPlanned plans) trip.places

  pub collect_days-AreAllDays :
      {plans : List DayPlan}
      → collect_days trip mutated new_day (days_present mutated trip.places) ≡ ok plans
      → AreAllDays plans
  unfolding places_for_day
  collect_days-AreAllDays {plans} e =
      let days = days_present mutated trip.places in
      let collected = collect_days-Collected days e in
      record {
        edited =
            new_one
              (listed plans days mutated collected (days_present-contains mutated trip.places));
        others =
            All-map (HasDay mutated trip.places) (IsPlanned plans)
              (λ tp h. planned tp h.1 (listed plans days tp.stop.row.day_number collected h.0))
              trip.places (days_present-All mutated trip.places);
      }
    where
      new_one : Collected plans mutated → OneOf plans new_day
      new_one (inl (e, m)) = m
      new_one (inr (o, c)) = cc (o, (==_iff mutated mutated).1 refl)

      planned :
          (tp : LoadedStop)
          → is_empty (keep (λ t. t.stop.row.day_number == tp.stop.row.day_number) trip.places)
            ≡ false
          → Collected plans tp.stop.row.day_number
          → IsPlanned plans tp
      planned tp stops (inl c) = inl c.0
      planned tp stops (inr (o, inl none_there)) = cc
      planned tp stops (inr (o, inr stored)) = inr stored
