-- ===== src/Travel/Validator/Repeats.antt =====
-- `check_no_repeat_places` (src/travel_engine/trip_validator.py): its counter counts.
use agentic_guide_system.Prelude.{
  Option, if_ind, All-append, ℕ, ◌+◌, ◌≤◌, ◌≡◌, ◌↔◌, refl, sym, subst, inl, inr, false, String,
  List, [], ◌∷◌, ◌==◌, ==_iff, ltb, if◌then◌else◌, All, sum_by, count_by, arith, Bool-cases,
}
use agentic_guide_system.Prelude.Dict.{Dict, get, put, get-put, nat_eq}
use agentic_guide_system.Travel.Schedule.{ScheduledStop}
use agentic_guide_system.Travel.Validator.{
  ValidationError, repeated_place, DayPlan, TripItinerary, count_or_zero, count_stops, count_days,
  repeat_errors, name_days, check_no_repeat_places,
}

-- How often a place stands in some stops, and in some days.
abbrev pub occurs : ℕ → List ScheduledStop → ℕ
occurs pid stops = count_by (λ s. s.place.id == pid) stops

abbrev pub occurs_in_days : ℕ → List DayPlan → ℕ
occurs_in_days pid days = sum_by (λ d. occurs pid d.stops) days

abbrev counted : Dict ℕ ℕ → ℕ → ℕ
counted counts pid = count_or_zero (get counts pid)

abbrev bump : Dict ℕ ℕ → ℕ → Dict ℕ ℕ
bump counts pid = put counts pid (counted counts pid + 1)

counted-bump :
    (counts : Dict ℕ ℕ) (pid q : ℕ)
    → counted (bump counts pid) q ≡ counted counts q + (if pid == q then 1 else 0)
counted-bump counts pid q =
    ground (arith, get-put counts pid q (counted counts pid + 1), ==_iff pid q)

occurs-cons :
    (q : ℕ) (stop : ScheduledStop) (stops : List ScheduledStop)
    → occurs q (stop ∷ stops) ≡ (if stop.place.id == q then 1 else 0) + occurs q stops
occurs-cons q stop stops = ground arith

counted-stops :
    (counts : Dict ℕ ℕ) (stops : List ScheduledStop) (q : ℕ)
    → counted (count_stops counts stops) q ≡ counted counts q + occurs q stops
unfolding count_stops
counted-stops counts [] q = omega arith
counted-stops counts (stop ∷ stops) q =
    let e = counted-stops (bump counts stop.place.id) stops q in
    let f = counted-bump counts stop.place.id q in omega (arith, e, f, occurs-cons q stop stops)

counted-days :
    (counts : Dict ℕ ℕ) (days : List DayPlan) (q : ℕ)
    → counted (count_days counts days) q ≡ counted counts q + occurs_in_days q days
unfolding count_days
counted-days counts [] q = omega arith
counted-days counts (day ∷ days) q =
    omega
      (arith, counted-days (count_stops counts day.stops) days q, counted-stops counts day.stops q)

counted-nil : (q : ℕ) → counted [] q ≡ 0
unfolding get
counted-nil q = refl

-- No entry counts more than there is.
abbrev Within : (ℕ → ℕ) → Dict ℕ ℕ → Type 0
Within bound counts = All (λ e. e.1 ≤ bound e.0) counts

Within-put :
    (bound : ℕ → ℕ) (counts : Dict ℕ ℕ) (pid v : ℕ)
    → Within bound counts
    → v ≤ bound pid
    → Within bound (put counts pid v)
unfolding put
Within-put bound [] pid v w h = (h, tt)
Within-put bound ((k, n) ∷ counts) pid v w h = elim (Bool-cases (k == pid)) [
  | inl e ↦
      let same : k ≡ pid = (==_iff k pid).0 e in
      rw e (subst (λ (q : ℕ). v ≤ bound q) (sym same) h, w.1)
  | inr e ↦ rw e (w.0, Within-put bound counts pid v w.1 h)
]

Within-grow :
    (bound larger : ℕ → ℕ) (counts : Dict ℕ ℕ)
    → ((q : ℕ) → bound q ≤ larger q)
    → Within bound counts
    → Within larger counts
Within-grow bound larger [] h w = tt
Within-grow bound larger ((k, n) ∷ counts) h w =
    (omega (arith, h k), Within-grow bound larger counts h w.1)

-- The value of a key is one of its entries.
counted-Within :
    (bound : ℕ → ℕ) (counts : Dict ℕ ℕ) (q : ℕ) → Within bound counts → counted counts q ≤ bound q
unfolding get
counted-Within bound [] q w = omega arith
counted-Within bound ((k, n) ∷ counts) q w = elim (Bool-cases (k == q)) [
  | inl e ↦ let same : k ≡ q = (==_iff k q).0 e in rw e (subst (λ (j : ℕ). n ≤ bound j) same w.0)
  | inr e ↦ rw e (counted-Within bound counts q w.1)
]

Within-stops :
    (bound : ℕ → ℕ) (counts : Dict ℕ ℕ) (stops : List ScheduledStop)
    → Within bound counts
    → Within (λ q. bound q + occurs q stops) (count_stops counts stops)
unfolding count_stops
Within-stops bound counts [] w = Within-grow bound (λ q. bound q + 0) counts (λ q. omega arith) w
Within-stops bound counts (stop ∷ stops) w =
    let pid = stop.place.id in
    let next : ℕ → ℕ = λ q. bound q + (if pid == q then 1 else 0) in
    let room : counted counts pid + 1 ≤ next pid =
      ground (arith, counted-Within bound counts pid w) in
    let w' : Within next (bump counts pid) =
      Within-put next counts pid (counted counts pid + 1)
        (Within-grow bound next counts (λ q. ground arith) w) room in
    Within-grow (λ q. next q + occurs q stops) (λ q. bound q + occurs q (stop ∷ stops)) _
      (λ q. omega (arith, occurs-cons q stop stops)) (Within-stops next (bump counts pid) stops w')

Within-days :
    (bound : ℕ → ℕ) (counts : Dict ℕ ℕ) (days : List DayPlan)
    → Within bound counts
    → Within (λ q. bound q + occurs_in_days q days) (count_days counts days)
unfolding count_days
Within-days bound counts [] w = Within-grow bound (λ q. bound q + 0) counts (λ q. omega arith) w
Within-days bound counts (day ∷ days) w =
    Within-grow (λ q. bound q + occurs q day.stops + occurs_in_days q days)
      (λ q. bound q + occurs_in_days q (day ∷ days)) _ (λ q. omega arith)
      (Within-days (λ q. bound q + occurs q day.stops) (count_stops counts day.stops) days
        (Within-stops bound counts day.stops w))

module _ (names : Dict ℕ String) where
  none_repeated : (counts : Dict ℕ ℕ) → repeat_errors names counts ≡ [] → Within (λ q. 1) counts
  unfolding repeat_errors
  none_repeated [] e = tt
  none_repeated ((k, n) ∷ counts) e = elim (Bool-cases (ltb 1 n)) [
    | inl h ↦ cc (rw h at e)
    | inr h ↦ (ground arith, none_repeated counts (rw h at e))
  ]

  no_repeat_errors : (counts : Dict ℕ ℕ) → Within (λ q. 1) counts → repeat_errors names counts ≡ []
  unfolding repeat_errors
  no_repeat_errors [] w = refl
  no_repeat_errors ((k, n) ∷ counts) w =
      let small : ltb 1 n ≡ false = ground arith in rw small (no_repeat_errors counts w.1)

-- The check finds no error exactly when no place occurs twice.
pub check_no_repeat_places-nil :
    (itinerary : TripItinerary)
    → (check_no_repeat_places itinerary ≡ []) ↔ ((pid : ℕ) → occurs_in_days pid itinerary.days ≤ 1)
unfolding check_no_repeat_places
check_no_repeat_places-nil itinerary =
    let names = name_days [] itinerary.days in
    let counts = count_days [] itinerary.days in
    (
      λ e pid. omega (
        arith,
        counted-Within (λ q. 1) counts pid (none_repeated names counts e),
        counted-days [] itinerary.days pid,
        counted-nil pid,
      ),
      λ h. no_repeat_errors names counts (
          Within-grow (λ q. 0 + occurs_in_days q itinerary.days) (λ q. 1) counts
            (λ q. omega (arith, h q)) (Within-days (λ q. 0) [] itinerary.days tt)),
    )

All-repeat_errors :
    (P : ValidationError → Type 0)
    → ((pid : ℕ) (name : Option String) (count : ℕ) → P (repeated_place pid name count))
    → (names : Dict ℕ String) (counts : Dict ℕ ℕ) → All P (repeat_errors names counts)
unfolding repeat_errors
All-repeat_errors P h names [] = tt
All-repeat_errors P h names ((pid, count) ∷ counts) =
    All-append P (if ltb 1 count then repeated_place pid (get names pid) count ∷ [] else [])
      (repeat_errors names counts)
      (if_ind (All P) (ltb 1 count) (h pid (get names pid) count, tt) tt)
      (All-repeat_errors P h names counts)

-- All errors of the check have one kind.
pub All-check_no_repeat_places :
    (P : ValidationError → Type 0)
    → ((pid : ℕ) (name : Option String) (count : ℕ) → P (repeated_place pid name count))
    → (itinerary : TripItinerary) → All P (check_no_repeat_places itinerary)
unfolding check_no_repeat_places
All-check_no_repeat_places P h itinerary =
    All-repeat_errors P h (name_days [] itinerary.days) (count_days [] itinerary.days)
