-- ===== src/Travel/Schedule/Build.antt =====
-- `build_day_schedule` (src/travel_engine/schedule_builder.py) as a whole: when it succeeds, and what
-- the schedule it returns is.
use agentic_guide_system.Prelude.{
  ℕ, suc, ◌+◌, ◌≤◌, ◌≡◌, ◌≢◌, refl, subst, inl, inr, Bool, false, some, List, [], ◌∷◌, map, All,
  length, ltb, if◌then◌else◌, arith, Bool-cases, Option-cases,
}
use agentic_guide_system.Prelude.Dict.{get, pair_eq}
use agentic_guide_system.Prelude.Result.{ok, ok-eq-ok, >>=-eq-ok}
use agentic_guide_system.Travel.Clock.{parse_hhmm}
use agentic_guide_system.Travel.Rules.{base_sentinel_id}
use agentic_guide_system.Travel.Places.{ScoredPlace}
use agentic_guide_system.Travel.Routing.{RouteLeg, legs_to_lookup}
use agentic_guide_system.Travel.Route.{Lookup}
use agentic_guide_system.Travel.Schedule.{
  ScheduledStop, Timed, LoopState, to_stop, extract_morning_first, hops_from, required_hops,
  check_hops, hop_duration, time_stops, time_day, build_day_schedule, visit_stop, after_visit,
  day_start, leg_minutes,
}
use agentic_guide_system.Travel.Schedule.Runs.{IsExact, time_stops-IsExact}
use agentic_guide_system.Travel.Schedule.Times.{
  IsTimetable, InSequence-earlier, time_stops-IsTimetable,
}

-- The order that is timed.
abbrev pub timed_order : List ScoredPlace → Bool → List ScoredPlace
timed_order stops preserve_order = if preserve_order then stops else extract_morning_first stops

day_start_lem : day_start ≡ 480
unfolding parse_hhmm
day_start_lem = refl

earlier-IsTimetable :
    (lookup : Lookup) (a b : ℕ) (order : List ScoredPlace) (timed : List Timed)
    → a ≤ b
    → IsTimetable lookup b order timed
    → IsTimetable lookup a order timed
earlier-IsTimetable lookup a b order timed h t = record {
  stops = t.stops;
  sequence = InSequence-earlier a b timed h t.sequence;
  lunch = t.lunch;
  reach = t.reach;
}

time_day-IsTimetable :
    (lookup : Lookup) (order : List ScoredPlace) {timed : List Timed}
    → time_day lookup order ≡ ok timed
    → IsTimetable lookup 480 order timed
unfolding time_day
time_day-IsTimetable lookup [] {timed} e =
    subst (IsTimetable lookup 480 []) (ok-eq-ok e)
      (record { stops = refl; sequence = tt; lunch = tt; reach = tt })
time_day-IsTimetable lookup (s ∷ rest) {timed} e =
    let (travel, hop, e') = >>=-eq-ok (hop_duration lookup base_sentinel_id s.place.id) _ e in
    let st : LoopState = record { clock = day_start + travel; lunch_taken = false } in
    earlier-IsTimetable lookup 480 (day_start + travel) (s ∷ rest) timed
      (omega (arith, day_start_lem)) (time_stops-IsTimetable lookup (s ∷ rest) st (λ h. cc) e')

-- The first stop is reached from the base, which is left at 08:00, and the times run on from there.
abbrev pub IsTimed : Lookup → List ScoredPlace → List Timed → Type 0
IsTimed lookup [] timed = Unit
IsTimed lookup (s ∷ rest) timed =
    (travel : ℕ) × (hop_duration lookup base_sentinel_id s.place.id ≡ ok travel)
    × IsExact lookup false (480 + travel) timed

time_day-IsTimed :
    (lookup : Lookup) (order : List ScoredPlace) {timed : List Timed}
    → time_day lookup order ≡ ok timed
    → IsTimed lookup order timed
unfolding time_day
time_day-IsTimed lookup [] e = tt
time_day-IsTimed lookup (s ∷ rest) {timed} e =
    let (travel, hop, e') = >>=-eq-ok (hop_duration lookup base_sentinel_id s.place.id) _ e in
    let st : LoopState = record { clock = day_start + travel; lunch_taken = false } in
    (
      travel,
      hop,
      subst (λ n. IsExact lookup false (n + travel) timed) day_start_lem
          (time_stops-IsExact lookup (s ∷ rest) st e'),
    )

-- The schedule returned for a day with stops formats, modulo a day, the exact times of the ordered
-- stops. The base is left at 08:00. A visit has the minutes of its category and begins at once, or
-- after the hour of lunch where that is still to come and the visit would run past 13:00 or the arrival
-- is not before it. A way takes the minutes of its leg, or ends at 14:00 where lunch is still to come
-- and begins on it. So
-- the visits do not overlap one another nor the break from 13:00 to 14:00, and a way of at most 60
-- minutes is over when the next visit starts.
pub build_day_schedule-IsTimetable :
    (stops : List ScoredPlace) (route_legs : List RouteLeg) (preserve_order : Bool)
    {scheduled : List ScheduledStop}
    → build_day_schedule stops route_legs preserve_order ≡ ok scheduled
    → stops ≢ []
    → (timed : List Timed) × (map to_stop timed ≡ scheduled)
      × IsTimed (legs_to_lookup route_legs) (timed_order stops preserve_order) timed
      × IsTimetable (legs_to_lookup route_legs) 480 (timed_order stops preserve_order) timed
unfolding build_day_schedule
build_day_schedule-IsTimetable [] route_legs preserve_order e ne = absurd (ne refl)
build_day_schedule-IsTimetable (s ∷ rest) route_legs preserve_order {scheduled} e ne =
    elim (Bool-cases (ltb (length route_legs) (length (s ∷ rest)))) [
      | inl few ↦ cc (rw few at e)
      | inr enough ↦
          let lookup = legs_to_lookup route_legs in
          let order = timed_order (s ∷ rest) preserve_order in
          let (_, _, e') = >>=-eq-ok (check_hops lookup (required_hops order)) _ (rw enough at e) in
          let (timed, times, e'') = >>=-eq-ok (time_day lookup order) _ e' in
          (
            timed,
            ok-eq-ok e'',
            time_day-IsTimed lookup order times,
            time_day-IsTimetable lookup order times,
          )
    ]

-- A leg is known for the hop.
abbrev pub HasLeg : Lookup → ℕ × ℕ → Type 0
HasLeg lookup hop = (leg : RouteLeg) × (get lookup hop ≡ some leg)

check_hops-ok :
    (lookup : Lookup) (hops : List (ℕ × ℕ))
    → All (HasLeg lookup) hops
    → check_hops lookup hops ≡ ok tt
unfolding check_hops
check_hops-ok lookup [] h = refl
check_hops-ok lookup (hop ∷ hops) h = rw (h.0.1, check_hops) (check_hops-ok lookup hops h.1)

hop_duration-ok :
    (lookup : Lookup) (a b : ℕ)
    → HasLeg lookup (a, b)
    → (travel : ℕ) × (hop_duration lookup a b ≡ ok travel)
unfolding hop_duration
hop_duration-ok lookup a b h = (h.0.duration_min, rw h.1)

time_stops-ok :
    (lookup : Lookup) (st : LoopState) (s : ScoredPlace) (rest : List ScoredPlace)
    → All (HasLeg lookup) (hops_from s.place.id rest)
    → (timed : List Timed) × (time_stops lookup st (s ∷ rest) ≡ ok timed)
unfolding time_stops hops_from
time_stops-ok lookup st s [] h = (_, refl)
time_stops-ok lookup st s (next ∷ rest) h =
    let (travel, hop) = hop_duration-ok lookup s.place.id next.place.id h.0 in
    let (more, rec) = time_stops-ok lookup (after_visit (visit_stop st s).1 travel) next rest h.1 in
    ((visit_stop st s).0 ∷ more, rw (hop, rec))

time_day-ok :
    (lookup : Lookup) (order : List ScoredPlace)
    → All (HasLeg lookup) (required_hops order)
    → (timed : List Timed) × (time_day lookup order ≡ ok timed)
unfolding time_day required_hops hops_from
time_day-ok lookup [] h = ([], refl)
time_day-ok lookup (s ∷ rest) h =
    let (travel, hop) = hop_duration-ok lookup base_sentinel_id s.place.id h.0 in
    let (timed, rec) =
      time_stops-ok lookup (record { clock = day_start + travel; lunch_taken = false }) s rest
        h.1 in
    (timed, rw (hop, rec))

-- With at least as many legs as stops, and a leg for every hop of the order from the base on, no
-- error is raised.
pub build_day_schedule-ok :
    (stops : List ScoredPlace) (route_legs : List RouteLeg) (preserve_order : Bool)
    → length stops ≤ length route_legs
    → All (HasLeg (legs_to_lookup route_legs)) (required_hops (timed_order stops preserve_order))
    → (scheduled : List ScheduledStop) × (build_day_schedule stops route_legs preserve_order
        ≡ ok scheduled)
unfolding build_day_schedule
build_day_schedule-ok [] route_legs preserve_order le h = ([], refl)
build_day_schedule-ok (s ∷ rest) route_legs preserve_order le h =
    let lookup = legs_to_lookup route_legs in
    let order = timed_order (s ∷ rest) preserve_order in
    let (timed, times) = time_day-ok lookup order h in
    let enough : ltb (length route_legs) (suc (length rest)) ≡ false = ground arith in
    (map to_stop timed, rw (enough, check_hops-ok lookup (required_hops order) h, times))

check_hops-HasLeg :
    (lookup : Lookup) (hops : List (ℕ × ℕ))
    → check_hops lookup hops ≡ ok tt
    → All (HasLeg lookup) hops
unfolding check_hops leg_minutes
check_hops-HasLeg lookup [] e = tt
check_hops-HasLeg lookup (hop ∷ hops) e = elim (Option-cases (get lookup hop)) [
  | inl none_found ↦ cc (rw none_found at e)
  | inr (leg, found) ↦ ((leg, found), check_hops-HasLeg lookup hops (rw found at e))
]

-- Where a schedule is returned for a day with stops, a leg is known for every hop of the order.
pub build_day_schedule-HasLeg :
    (stops : List ScoredPlace) (route_legs : List RouteLeg) (preserve_order : Bool)
    {scheduled : List ScheduledStop}
    → build_day_schedule stops route_legs preserve_order ≡ ok scheduled
    → stops ≢ []
    → All (HasLeg (legs_to_lookup route_legs)) (required_hops (timed_order stops preserve_order))
unfolding build_day_schedule
build_day_schedule-HasLeg [] route_legs preserve_order e ne = absurd (ne refl)
build_day_schedule-HasLeg (s ∷ rest) route_legs preserve_order {scheduled} e ne =
    elim (Bool-cases (ltb (length route_legs) (length (s ∷ rest)))) [
      | inl few ↦ cc (rw few at e)
      | inr enough ↦
          let lookup = legs_to_lookup route_legs in
          let order = timed_order (s ∷ rest) preserve_order in
          let (u, checked, more) =
            >>=-eq-ok (check_hops lookup (required_hops order)) _ (rw enough at e) in
          check_hops-HasLeg lookup (required_hops order) checked
    ]
