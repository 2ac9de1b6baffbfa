-- ===== src/Travel/Validator/Slots.antt =====
-- `check_morning_slots` (src/travel_engine/trip_validator.py) against a description of the slots.
use agentic_guide_system.Prelude.{
  ℕ, suc, ◌≤◌, ◌≡◌, ◌↔◌, refl, ap, inl, inr, true, Option, none, some, List, [], ◌∷◌, ◌++◌, All,
  arith, Bool-cases, Option-cases, some-eq-some,
}
use agentic_guide_system.Travel.Clock.{parse_hhmm}
use agentic_guide_system.Travel.Rules.{morning_only_categories}
use agentic_guide_system.Travel.Places.{contains}
use agentic_guide_system.Travel.Schedule.{ScheduledStop}
use agentic_guide_system.Travel.Validator.{
  DayPlan, TripItinerary, ValidationError, join, slot_error, stop_errors, slots_from, days_slots,
  check_morning_slots, latest_morning_start,
}

-- A morning-only stop stands in one of the first two slots and starts by 10:30.
abbrev pub InMorning : ℕ → ScheduledStop → Type 0
InMorning slot stop =
    contains morning_only_categories stop.place.category ≡ true
    → (start : ℕ) × (parse_hhmm stop.suggested_start_time ≡ some start) × (slot ≤ 2) × (start ≤ 630)

abbrev pub SlotsOk : ℕ → List ScheduledStop → Type 0
SlotsOk slot [] = Unit
SlotsOk slot (stop ∷ stops) = InMorning slot stop × SlotsOk (suc slot) stops

pub append-eq-nil : {A : Type 0} (xs ys : List A) → xs ++ ys ≡ [] → (xs ≡ []) × (ys ≡ [])
append-eq-nil [] ys e = (refl, e)
append-eq-nil (x ∷ xs) ys e = cc

pub join-nil :
    (a b : Option (List ValidationError)) → (join a b ≡ some []) ↔ ((a ≡ some []) × (b ≡ some []))
join-nil none b = (λ e. cc, λ h. h.0)
join-nil (some xs) none = (λ e. cc, λ h. h.1)
join-nil (some xs) (some ys) = (
  λ e. let (p, q) = append-eq-nil xs ys (some-eq-some _ _ e) in (ap some p, ap some q),
  λ h. cc (h.0, h.1),
)

latest_lem : latest_morning_start ≡ 630
unfolding parse_hhmm
latest_lem = refl

-- One stop raises no error and causes none exactly when it is in order.
stop_errors-nil :
    (day_i slot : ℕ) (stop : ScheduledStop)
    → (stop_errors day_i slot stop ≡ some []) ↔ InMorning slot stop
unfolding stop_errors
stop_errors-nil day_i slot stop =
    elim (Bool-cases (contains morning_only_categories stop.place.category)) [
      | inl e ↦ ((λ h _. in_order (rw e at h)), (λ h. rw e (no_error (h e))))
      | inr e ↦ ((λ h f. cc), (λ h. rw e))
    ]
  where
    in_order :
        slot_error day_i slot stop (parse_hhmm stop.suggested_start_time) ≡ some []
        → (start : ℕ) × (parse_hhmm stop.suggested_start_time ≡ some start)
          × (slot ≤ 2)
          × (start ≤ 630)
    in_order h = elim (Option-cases (parse_hhmm stop.suggested_start_time)) [
      | inl e ↦ cc (rw e at h)
      | inr (start, e) ↦
          let h' = rw e at h in (start, e, ground (arith, latest_lem), ground (arith, latest_lem))
    ]

    no_error :
        (start : ℕ) × (parse_hhmm stop.suggested_start_time ≡ some start)
          × (slot ≤ 2)
          × (start ≤ 630)
        → slot_error day_i slot stop (parse_hhmm stop.suggested_start_time) ≡ some []
    no_error (start, e, early, soon) = rw e (ground (arith, latest_lem))

slots_from-nil :
    (day_i slot : ℕ) (stops : List ScheduledStop)
    → (slots_from day_i slot stops ≡ some []) ↔ SlotsOk slot stops
unfolding slots_from
slots_from-nil day_i slot [] = (λ e. tt, λ h. refl)
slots_from-nil day_i slot (stop ∷ stops) =
    let one = stop_errors-nil day_i slot stop in
    let more = slots_from-nil day_i (suc slot) stops in
    let both = join-nil (stop_errors day_i slot stop) (slots_from day_i (suc slot) stops) in
    (λ e. let (p, q) = both.0 e in (one.0 p, more.0 q), λ h. both.1 (one.1 h.0, more.1 h.1))

days_slots-nil :
    (i : ℕ) (days : List DayPlan)
    → (days_slots i days ≡ some []) ↔ All (λ d. SlotsOk 1 d.stops) days
unfolding days_slots
days_slots-nil i [] = (λ e. tt, λ h. refl)
days_slots-nil i (day ∷ days) =
    let one = slots_from-nil i 1 day.stops in
    let more = days_slots-nil (suc i) days in
    let both = join-nil (slots_from i 1 day.stops) (days_slots (suc i) days) in
    (λ e. let (p, q) = both.0 e in (one.0 p, more.0 q), λ h. both.1 (one.1 h.0, more.1 h.1))

pub check_morning_slots-nil :
    (itinerary : TripItinerary)
    → (check_morning_slots itinerary ≡ some []) ↔ All (λ d. SlotsOk 1 d.stops) itinerary.days
unfolding check_morning_slots
check_morning_slots-nil itinerary = days_slots-nil 0 itinerary.days
