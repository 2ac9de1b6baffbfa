-- ===== src/Trips/Edits/Validated.antt =====
-- src/trips/service.py: an edit that is stored has passed the validation of the whole trip.
use agentic_guide_system.Prelude.{
  ℕ, ◌≡◌, refl, ◌∙◌, inl, inr, Bool, true, false, not, List, [], ◌∷◌, All, keep, is_empty, some,
  Bool-cases, Option-cases, if◌then◌else◌,
}
use agentic_guide_system.Prelude.Result.{Result, ok, err, >>=-eq-ok}
use agentic_guide_system.Travel.Routing.{RoutingProvider}
use agentic_guide_system.Travel.Schedule.{ScheduledStop}
use agentic_guide_system.Travel.Validator.{
  DayPlan, TripItinerary, ValidationError, ValidationResult, validate_trip,
}
use agentic_guide_system.Travel.Validator.Verdict.{
  IsValidTrip, validate_trip-Passes, validate_trip-passed, IsValidButMornings,
  validate_trip-IsValidButMornings, is_morning_slot,
}
use agentic_guide_system.Trips.{EditType, LoadedTrip, Store, TripError}
use agentic_guide_system.Trips.Repository.{Session}
use agentic_guide_system.Trips.Steps.{after_reading}
use agentic_guide_system.Trips.Days.{day_plan_from_scheduled}
use agentic_guide_system.Trips.Plans.{
  DayEdit, days_present, collect_days, split_errors, refuse_errors, validate_full_trip,
  plan_reorder, plan_remove, plan_add, plan_reoptimize,
}
use agentic_guide_system.Trips.Edits.{
  persist_day_and_audit, decide_and_persist, reorder_stops, remove_stop, add_stop, reoptimize_day,
  EditRequest, to_reorder, to_remove, to_add, to_reoptimize, requested_type, run_edit,
}
use agentic_guide_system.Trips.Edits.Planned.{
  IsOwnedTrip, AreAllDays, load_owned_trip-IsOwnedTrip, collect_days-AreAllDays,
}
use agentic_guide_system.Trips.Edits.Decided.{
  IsDecided, plan_reorder-IsDecided, plan_remove-IsDecided, plan_add-IsDecided,
  plan_reoptimize-IsDecided,
}

is_empty-nil {ℓ} : {A : Type ℓ} (xs : List A) → is_empty xs ≡ true → xs ≡ []
is_empty-nil [] h = refl
is_empty-nil (x ∷ xs) h = cc

keep-none :
    (errors : List ValidationError)
    → keep (λ e. not (is_morning_slot e)) errors ≡ []
    → All (λ e. is_morning_slot e ≡ true) errors
keep-none [] h = tt
keep-none (e ∷ es) h = elim (Bool-cases (is_morning_slot e)) [
  | inl morning ↦ (morning, keep-none es (rw morning at h))
  | inr other ↦ cc (rw other at h)
]

module _ (dev : List ScheduledStop → ℕ) where
  -- A reorder may leave morning-only places in late slots; every other edit leaves a valid trip.
  abbrev pub IsAccepted : EditType → TripItinerary → Type 0
  IsAccepted EditType.reorder itinerary = IsValidButMornings dev itinerary
  IsAccepted _ itinerary = IsValidTrip dev itinerary

  refuse_errors-IsAccepted :
      (edit_type : EditType) (itinerary : TripItinerary)
      → refuse_errors edit_type (validate_trip dev itinerary) ≡ ok tt
      → IsAccepted edit_type itinerary
  unfolding refuse_errors split_errors
  refuse_errors-IsAccepted edit_type itinerary e =
      elim (Option-cases (validate_trip dev itinerary)) [
        | inl raised ↦ cc (rw raised at e)
        | inr (r, given) ↦ accepted edit_type r given (rw given at e)
      ]
    where
      if_passes :
          (b : Bool) (x : TripError)
          → ◌≡◌ {A = Result TripError (Unit {0})} (if b then ok tt else err x) (ok tt)
          → b ≡ true
      if_passes true x h = refl
      if_passes false x h = cc

      valid :
          (r : ValidationResult)
          → validate_trip dev itinerary ≡ some r
          → is_empty r.errors ≡ true
          → IsValidTrip dev itinerary
      valid r given h =
          (validate_trip-Passes dev itinerary).0
            (r, given, validate_trip-passed dev itinerary given ∙ h)

      accepted :
          (t : EditType) (r : ValidationResult)
          → validate_trip dev itinerary ≡ some r
          → refuse_errors t (some r) ≡ ok tt
          → IsAccepted t itinerary
      accepted EditType.reorder r given h =
          validate_trip-IsValidButMornings dev itinerary given
            (keep-none r.errors (is_empty-nil _ (if_passes _ _ h)))
      accepted EditType.remove_stop r given h = valid r given (if_passes _ _ h)
      accepted EditType.add_stop r given h = valid r given (if_passes _ _ h)
      accepted EditType.reoptimize_day r given h = valid r given (if_passes _ _ h)

  -- The trip that an edit leaves: the new day in place of the old one, among the stored other days.
  pub validate_full_trip-IsAccepted :
      (trip : LoadedTrip) (day : ℕ) (new_day : DayPlan) (edit_type : EditType)
      → validate_full_trip dev trip day new_day edit_type ≡ ok tt
      → (plans : List DayPlan) × (collect_days trip day new_day (days_present day trip.places)
          ≡ ok plans)
        × IsAccepted edit_type (record { days = plans })
  unfolding validate_full_trip
  validate_full_trip-IsAccepted trip day new_day edit_type e =
      let (plans, collected, e') =
        >>=-eq-ok (collect_days trip day new_day (days_present day trip.places)) _ e in
      (plans, collected, refuse_errors-IsAccepted edit_type (record { days = plans }) e')

module _ (dev : List ScheduledStop → ℕ) (routing : RoutingProvider) where
  -- What stands behind a stored edit: the live trip that the user owns, a day that was decided on, the
  -- plans of all days, which the validation of the edit accepts, and the write of it.
  pub record IsSound (trip_id day user_id : ℕ) (edit_type : EditType) (s s' : Session)
      (trip : LoadedTrip) : Type 0 where
    pub edit : DayEdit
    pub decided : IsDecided dev s.current trip_id day user_id edit_type edit
    pub owned : IsOwnedTrip s.current trip_id user_id edit.trip
    pub plans : List DayPlan
    pub all_days : AreAllDays edit.trip day (day_plan_from_scheduled edit.scheduled edit.legs) plans
    pub collected :
        collect_days edit.trip day
          (day_plan_from_scheduled edit.scheduled edit.legs)
          (days_present day edit.trip.places)
        ≡ ok plans
    pub accepted : IsAccepted dev edit_type (record { days = plans })
    pub persisted : persist_day_and_audit edit s ≡ (ok trip, s')

  decided-IsSound :
      (plan : Store → Result TripError DayEdit) (trip_id day user_id : ℕ) (edit_type : EditType)
      (s : Session) {s' : Session} {trip : LoadedTrip}
      → ((edit : DayEdit)
          → plan s.current ≡ ok edit
          → IsDecided dev s.current trip_id day user_id edit_type edit)
      → decide_and_persist plan s ≡ (ok trip, s')
      → IsSound trip_id day user_id edit_type s s' trip
  unfolding decide_and_persist
  decided-IsSound plan trip_id day user_id edit_type s {s'} {trip} decides e =
      let (edit, planned, e') = after_reading plan persist_day_and_audit s e in
      let d = decides edit planned in
      let (plans, collected, accepted) =
        validate_full_trip-IsAccepted dev edit.trip day
          (day_plan_from_scheduled edit.scheduled edit.legs) edit_type d.validated in
      record {
        edit = edit;
        decided = d;
        owned = load_owned_trip-IsOwnedTrip s.current trip_id user_id d.owned;
        plans = plans;
        all_days =
            collect_days-AreAllDays edit.trip day (day_plan_from_scheduled edit.scheduled edit.legs)
              collected;
        collected = collected;
        accepted = accepted;
        persisted = e';
      }

  -- An edit that gives a trip was of a live trip that the user owns, loaded with its stops. There are
  -- plans that pass the validation: they are a valid trip, or after a reorder one whose only faults are
  -- morning-only places in late slots. Among them are the new plan of the edited day and, for the day of
  -- every other stop of the trip, the plan of the stored stops. What was decided is what is written.
  pub run_edit-IsSound :
      (request : EditRequest) (trip_id day user_id : ℕ) (s : Session) {s' : Session}
      {trip : LoadedTrip}
      → run_edit dev routing request trip_id day user_id s ≡ (ok trip, s')
      → IsSound trip_id day user_id (requested_type request) s s' trip
  unfolding run_edit reorder_stops remove_stop add_stop reoptimize_day
  run_edit-IsSound (to_reorder place_ids) trip_id day user_id s e =
      decided-IsSound (plan_reorder dev routing trip_id day place_ids user_id) trip_id day user_id
        EditType.reorder s
        (λ edit. plan_reorder-IsDecided dev routing trip_id day place_ids user_id s.current) e
  run_edit-IsSound (to_remove place_id) trip_id day user_id s e =
      decided-IsSound (plan_remove dev routing trip_id day place_id user_id) trip_id day user_id
        EditType.remove_stop s
        (λ edit. plan_remove-IsDecided dev routing trip_id day place_id user_id s.current) e
  run_edit-IsSound (to_add place_id) trip_id day user_id s e =
      decided-IsSound (plan_add dev routing trip_id day place_id user_id) trip_id day user_id
        EditType.add_stop s
        (λ edit. plan_add-IsDecided dev routing trip_id day place_id user_id s.current) e
  run_edit-IsSound to_reoptimize trip_id day user_id s e =
      decided-IsSound (plan_reoptimize dev routing trip_id day user_id) trip_id day user_id
        EditType.reoptimize_day s
        (λ edit. plan_reoptimize-IsDecided dev routing trip_id day user_id s.current) e
