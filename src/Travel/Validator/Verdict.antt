-- ===== src/Travel/Validator/Verdict.antt =====
-- `validate_trip` (src/travel_engine/trip_validator.py) decides a description of valid itineraries.
use agentic_guide_system.Prelude.{
  ℕ, suc, ◌≤◌, ◌≡◌, ◌↔◌, refl, ap, sym, not, subst, inl, inr, true, false, Option, none, some, List,
  [], ◌∷◌, ◌++◌, any, ltb, is_empty, length, All, All-append, if_ind, Bool, arith, Bool-cases,
  some-eq-some,
}
use agentic_guide_system.Travel.Rules.{anchor_min_score}
use agentic_guide_system.Travel.Schedule.{ScheduledStop}
use agentic_guide_system.Travel.Validator.{
  DayPlan, TripItinerary, ValidationError, ValidationResult, morning_slot_violation, each_day,
  travel_errors, anchor_errors, has_anchor, geo_errors, check_daily_travel_cap,
  check_no_repeat_places, check_morning_slots, check_anchor_per_day, check_geo_coherence, join,
  all_errors, with_warnings, validate_trip,
}
use agentic_guide_system.Travel.Validator.Repeats.{
  occurs_in_days, check_no_repeat_places-nil, All-check_no_repeat_places,
}
use agentic_guide_system.Travel.Validator.Slots.{
  SlotsOk, append-eq-nil, join-nil, check_morning_slots-nil,
}

module _ (P : DayPlan → Type 0) (f : ℕ → DayPlan → List ValidationError) where
  each_day-nil :
      ((i : ℕ) (d : DayPlan) → (f i d ≡ []) ↔ P d)
      → (i : ℕ) (days : List DayPlan) → (each_day f i days ≡ []) ↔ All P days
  unfolding each_day
  each_day-nil h i [] = (λ e. tt, λ p. refl)
  each_day-nil h i (d ∷ days) =
      let more = each_day-nil h (suc i) days in
      (
        λ e.
            let (p, q) = append-eq-nil (f i d) (each_day f (suc i) days) e in
            ((h i d).0 p, more.0 q),
        λ p. cc ((h i d).1 p.0, more.1 p.1),
      )

abbrev TravelOk : DayPlan → Type 0
TravelOk d = d.total_travel_min ≤ 180

-- Some stop of the day scores above 0.7.
abbrev AnchorOk : DayPlan → Type 0
AnchorOk d = any (λ s. ltb anchor_min_score s.score) d.stops ≡ true

module _ (day_coord_stddev_m : List ScheduledStop → ℕ) where
  abbrev GeoOk : DayPlan → Type 0
  GeoOk d = 2 ≤ length d.stops → day_coord_stddev_m d.stops ≤ 15000

  -- The description.
  pub record IsValidTrip (itinerary : TripItinerary) : Type 0 where
    pub some_day : is_empty itinerary.days ≡ false
    pub travel : All TravelOk itinerary.days
    pub repeats : (pid : ℕ) → occurs_in_days pid itinerary.days ≤ 1
    pub mornings : All (λ d. SlotsOk 1 d.stops) itinerary.days
    pub anchors : All AnchorOk itinerary.days
    pub coherent : All GeoOk itinerary.days

travel_errors-nil : (i : ℕ) (d : DayPlan) → (travel_errors i d ≡ []) ↔ TravelOk d
unfolding travel_errors
travel_errors-nil i d = ground arith

anchor_errors-nil : (i : ℕ) (d : DayPlan) → (anchor_errors i d ≡ []) ↔ AnchorOk d
unfolding anchor_errors has_anchor
anchor_errors-nil i d = ground arith

geo_errors-nil :
    (dev : List ScheduledStop → ℕ) (i : ℕ) (d : DayPlan) → (geo_errors dev i d ≡ []) ↔ GeoOk dev d
unfolding geo_errors
geo_errors-nil dev i d = ground arith

abbrev pub Passes : (List ScheduledStop → ℕ) → TripItinerary → Type 0
Passes dev itinerary =
    (r : ValidationResult) × (validate_trip dev itinerary ≡ some r) × (r.passed ≡ true)

module _ (dev : List ScheduledStop → ℕ) (itinerary : TripItinerary) where
  abbrev capped : List ValidationError
  capped = check_daily_travel_cap itinerary ++ check_no_repeat_places itinerary

  abbrev settled : List ValidationError
  settled = check_anchor_per_day itinerary ++ check_geo_coherence dev itinerary

  all_errors-nil :
      (all_errors dev itinerary ≡ some [])
      ↔ ((capped ≡ []) × (check_morning_slots itinerary ≡ some []) × (settled ≡ []))
  unfolding all_errors
  all_errors-nil =
      let rest = join (check_morning_slots itinerary) (some settled) in
      (
        λ e.
            let (p, q) = (join-nil (some capped) rest).0 e in
            let (m, s) = (join-nil (check_morning_slots itinerary) (some settled)).0 q in
            (some-eq-some _ _ p, m, some-eq-some _ _ s),
        λ h. (join-nil (some capped) rest).1 (
          ap some h.0,
          (join-nil (check_morning_slots itinerary) (some settled)).1 (h.1, ap some h.2),
        ),
      )

  checks-IsValidTrip :
      is_empty itinerary.days ≡ false
      → (all_errors dev itinerary ≡ some []) ↔ IsValidTrip dev itinerary
  unfolding check_daily_travel_cap check_anchor_per_day check_geo_coherence
  checks-IsValidTrip some_day =
      let caps = each_day-nil TravelOk travel_errors travel_errors-nil 0 itinerary.days in
      let reps = check_no_repeat_places-nil itinerary in
      let slots = check_morning_slots-nil itinerary in
      let ancs = each_day-nil AnchorOk anchor_errors anchor_errors-nil 0 itinerary.days in
      let geos = each_day-nil (GeoOk dev) (geo_errors dev) (geo_errors-nil dev) 0 itinerary.days in
      (
        λ e.
            let (p, m, q) = all_errors-nil.0 e in
            let (a, b) =
              append-eq-nil (check_daily_travel_cap itinerary) (check_no_repeat_places itinerary)
                p in
            let (c, d) =
              append-eq-nil (check_anchor_per_day itinerary) (check_geo_coherence dev itinerary)
                q in
            record {
              some_day = some_day;
              travel = caps.0 a;
              repeats = reps.0 b;
              mornings = slots.0 m;
              anchors = ancs.0 c;
              coherent = geos.0 d;
            },
        λ v. all_errors-nil.1 (
          cc (caps.1 v.travel, reps.1 v.repeats),
          slots.1 v.mornings,
          cc (ancs.1 v.anchors, geos.1 v.coherent),
        ),
      )

  no_errors :
      (errors : Option (List ValidationError))
      → ((r : ValidationResult) × (with_warnings itinerary errors ≡ some r) × (r.passed ≡ true))
        ↔ (errors ≡ some [])
  no_errors none = (λ (r, e, p). cc, λ e. cc)
  no_errors (some []) = (λ (r, e, p). refl, λ e. (_, refl, refl))
  no_errors (some (x ∷ xs)) = (λ (r, e, p). cc, λ e. cc)

  -- The validator passes an itinerary, without raising, exactly when the itinerary is valid: it has a
  -- day, no day travels more than 180 minutes, no place occurs twice, every morning-only stop is in
  -- the first two slots and starts by 10:30, every day has a stop with a score above 0.7, and the
  -- stops of a day disperse by at most 15 km.
  pub validate_trip-Passes : Passes dev itinerary ↔ IsValidTrip dev itinerary
  unfolding validate_trip
  validate_trip-Passes = elim (Bool-cases (is_empty itinerary.days)) [
    | inl e ↦ ((λ (r, h, p). cc (rw e at h)), (λ v. cc (v.some_day)))
    | inr e ↦
        let ok = checks-IsValidTrip e in
        let errs = no_errors (all_errors dev itinerary) in
        rw e ((λ h. ok.0 (errs.0 h)), (λ v. errs.1 (ok.1 v)))
  ]

with_warnings-passed :
    (itinerary : TripItinerary) (errors : Option (List ValidationError)) {r : ValidationResult}
    → with_warnings itinerary errors ≡ some r
    → r.passed ≡ is_empty r.errors
with_warnings-passed itinerary none e = cc
with_warnings-passed itinerary (some errors) {r} e =
    subst (λ (x : ValidationResult). x.passed ≡ is_empty x.errors) (some-eq-some _ r e) refl

-- The flag of a verdict is right: no errors.
pub validate_trip-passed :
    (dev : List ScheduledStop → ℕ) (itinerary : TripItinerary) {r : ValidationResult}
    → validate_trip dev itinerary ≡ some r
    → r.passed ≡ is_empty r.errors
unfolding validate_trip
validate_trip-passed dev itinerary {r} e = elim (Bool-cases (is_empty itinerary.days)) [
  | inl no_days ↦
      subst (λ (x : ValidationResult). x.passed ≡ is_empty x.errors)
        (some-eq-some _ r (rw no_days at e)) refl
  | inr days ↦ with_warnings-passed itinerary (all_errors dev itinerary) (rw days at e)
]

-- `err.startswith("morning_slot_violation")`
abbrev pub is_morning_slot : ValidationError → Bool
is_morning_slot (morning_slot_violation _ _ _ _) = true
is_morning_slot _ = false

abbrev IsOther : ValidationError → Type 0
IsOther e = is_morning_slot e ≡ false

none_left :
    (errors : List ValidationError)
    → All IsOther errors
    → All (λ e. is_morning_slot e ≡ true) errors
    → errors ≡ []
none_left [] other morning = refl
none_left (e ∷ es) other morning = cc (other.0, morning.0)

each_day-IsOther :
    (f : ℕ → DayPlan → List ValidationError) (i : ℕ) (days : List DayPlan)
    → ((i : ℕ) (d : DayPlan) → All IsOther (f i d))
    → All IsOther (each_day f i days)
unfolding each_day
each_day-IsOther f i [] h = tt
each_day-IsOther f i (d ∷ days) h =
    All-append IsOther (f i d) (each_day f (suc i) days) (h i d) (each_day-IsOther f (suc i) days h)

split_All :
    (P : ValidationError → Type 0) (xs ys : List ValidationError)
    → All P (xs ++ ys)
    → All P xs × All P ys
split_All P [] ys h = (tt, h)
split_All P (x ∷ xs) ys h = let (a, b) = split_All P xs ys h.1 in ((h.0, a), b)

module _ (dev : List ScheduledStop → ℕ) where
  -- The description of a valid trip without the condition on morning-only stops.
  pub record IsValidButMornings (itinerary : TripItinerary) : Type 0 where
    pub some_day : is_empty itinerary.days ≡ false
    pub travel : All TravelOk itinerary.days
    pub repeats : (pid : ℕ) → occurs_in_days pid itinerary.days ≤ 1
    pub anchors : All AnchorOk itinerary.days
    pub coherent : All (GeoOk dev) itinerary.days

  errors-IsOther :
      (itinerary : TripItinerary)
      → All IsOther (capped dev itinerary) × All IsOther (settled dev itinerary)
  unfolding check_daily_travel_cap check_anchor_per_day check_geo_coherence travel_errors
      anchor_errors geo_errors
  errors-IsOther itinerary = (
    All-append IsOther (check_daily_travel_cap itinerary) (check_no_repeat_places itinerary)
        (each_day-IsOther travel_errors 0 itinerary.days
          (λ i d. if_ind (All IsOther) (ltb 180 d.total_travel_min) (refl, tt) tt))
        (All-check_no_repeat_places IsOther (λ pid name count. refl) itinerary),
    All-append IsOther (check_anchor_per_day itinerary) (check_geo_coherence dev itinerary)
        (each_day-IsOther anchor_errors 0 itinerary.days
          (λ i d. if_ind (All IsOther) (not (has_anchor d)) (refl, tt) tt))
        (each_day-IsOther (geo_errors dev) 0 itinerary.days (λ i d.
          if_ind (All IsOther) (ltb (length d.stops) 2) tt
            (if_ind (All IsOther) (ltb 15000 (dev d.stops)) (refl, tt) tt))),
  )

  only_mornings :
      (itinerary : TripItinerary) (slots : Option (List ValidationError)) {r : ValidationResult}
      → is_empty itinerary.days ≡ false
      → with_warnings itinerary
          (join (some (capped dev itinerary)) (join slots (some (settled dev itinerary))))
        ≡ some r
      → All (λ e. is_morning_slot e ≡ true) r.errors
      → IsValidButMornings itinerary
  unfolding check_daily_travel_cap check_anchor_per_day check_geo_coherence
  only_mornings itinerary none some_day e h = cc
  only_mornings itinerary (some found) {r} some_day e h =
      let M : ValidationError → Type 0 = λ e. is_morning_slot e ≡ true in
      let errors = capped dev itinerary ++ (found ++ settled dev itinerary) in
      let all : All M errors =
        subst (λ (x : ValidationResult). All M x.errors) (sym (some-eq-some _ r e)) h in
      let (first, later) =
        split_All M (capped dev itinerary) (found ++ settled dev itinerary) all in
      let (_, last) = split_All M found (settled dev itinerary) later in
      let (other_first, other_last) = errors-IsOther itinerary in
      let (a, b) =
        append-eq-nil (check_daily_travel_cap itinerary) (check_no_repeat_places itinerary)
          (none_left (capped dev itinerary) other_first first) in
      let (c, d) =
        append-eq-nil (check_anchor_per_day itinerary) (check_geo_coherence dev itinerary)
          (none_left (settled dev itinerary) other_last last) in
      record {
        some_day = some_day;
        travel = (each_day-nil TravelOk travel_errors travel_errors-nil 0 itinerary.days).0 a;
        repeats = (check_no_repeat_places-nil itinerary).0 b;
        anchors = (each_day-nil AnchorOk anchor_errors anchor_errors-nil 0 itinerary.days).0 c;
        coherent =
            (each_day-nil (GeoOk dev) (geo_errors dev) (geo_errors-nil dev) 0 itinerary.days).0 d;
      }

  -- Where all errors are about morning slots, all other conditions of a valid trip hold.
  pub validate_trip-IsValidButMornings :
      (itinerary : TripItinerary) {r : ValidationResult}
      → validate_trip dev itinerary ≡ some r
      → All (λ e. is_morning_slot e ≡ true) r.errors
      → IsValidButMornings itinerary
  unfolding validate_trip all_errors
  validate_trip-IsValidButMornings itinerary {r} e h = elim (Bool-cases (is_empty itinerary.days)) [
    | inr some_day ↦
        only_mornings itinerary (check_morning_slots itinerary) some_day (rw some_day at e) h
    | inl no_days ↦
        let all =
          subst (λ (x : ValidationResult). All (λ e. is_morning_slot e ≡ true) x.errors)
            (sym (some-eq-some _ r (rw no_days at e))) h in
        cc (all.0)
  ]
