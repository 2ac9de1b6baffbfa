-- ===== src/Travel/Schedule/Runs.antt =====
-- The exact start times of `build_day_schedule` (src/travel_engine/schedule_builder.py): when each visit
-- begins and each way ends, with the hour of lunch from 13:00 taken once.
use agentic_guide_system.Prelude.{
  ℕ, ◌+◌, ◌≤◌, ◌<◌, ◌≡◌, refl, sym, subst, ◌⊎◌, Bool, true, false, List, [], ◌∷◌, All, arith,
}
use agentic_guide_system.Prelude.Result.{ok, ok-eq-ok, >>=-eq-ok}
use agentic_guide_system.Travel.Rules.{visit_duration_min}
use agentic_guide_system.Travel.Places.{ScoredPlace}
use agentic_guide_system.Travel.Route.{Lookup}
use agentic_guide_system.Travel.Schedule.{
  LoopState, Timed, after_visit, visit_stop, hop_duration, time_stops,
}
use agentic_guide_system.Travel.Schedule.Times.{lunch_start_lem, first_timed}

-- A visit begins at once, unless lunch is still to come and the visit would run into it, or the arrival
-- is past its start: then lunch goes before it. The last argument tells whether lunch is taken by then.
abbrev pub Begins : Bool → ℕ → ℕ → ℕ → Bool → Type 0
Begins true arrival visit start taken = (start ≡ arrival) × (taken ≡ true)
Begins false arrival visit start taken =
    ((arrival + visit ≤ 780) × (start ≡ arrival) × (taken ≡ false))
    ⊎ (((arrival < 780) × (780 < arrival + visit) × (start ≡ 840) × (taken ≡ true))
        ⊎ ((780 ≤ arrival) × (start ≡ arrival + 60) × (taken ≡ true)))

-- A way takes its minutes, unless lunch is still to come and begins on the way: then the arrival is
-- at its end.
abbrev pub Arrives : Bool → ℕ → ℕ → ℕ → Bool → Type 0
Arrives true end travel arrival taken = (arrival ≡ end + travel) × (taken ≡ true)
Arrives false end travel arrival taken =
    (((end + travel < 780) ⊎ (780 ≤ end)) × (arrival ≡ end + travel) × (taken ≡ false))
    ⊎ ((end < 780) × (780 ≤ end + travel) × (arrival ≡ 840) × (taken ≡ true))

-- The times follow from the arrival at the first stop, visit by visit and way by way.
abbrev pub Runs : Lookup → Bool → ℕ → List Timed → Type 0
Runs lookup taken arrival [] = Unit
Runs lookup taken arrival (t ∷ []) = (by_then : Bool) × Begins taken arrival t.visit t.start by_then
Runs lookup taken arrival (t ∷ u ∷ rest) =
    (by_then : Bool) × (travel : ℕ) × (next : ℕ) × (on_the_way : Bool) × Begins taken arrival
      t.visit t.start by_then
    × (hop_duration lookup t.scored.place.id u.scored.place.id ≡ ok travel)
    × Arrives by_then (t.start + t.visit) travel next on_the_way
    × Runs lookup on_the_way next (u ∷ rest)

abbrev at_time : Bool → ℕ → LoopState
at_time taken clock = record { clock = clock; lunch_taken = taken }

visit_stop-Begins :
    (taken : Bool) (clock : ℕ) (s : ScoredPlace)
    → Begins taken clock
        (visit_stop (at_time taken clock) s).0.visit
        (visit_stop (at_time taken clock) s).0.start
        (visit_stop (at_time taken clock) s).1.lunch_taken
unfolding visit_stop
visit_stop-Begins true clock s = ground (arith, lunch_start_lem)
visit_stop-Begins false clock s = ground (arith, lunch_start_lem)

visit_stop-stop : (st : LoopState) (s : ScoredPlace) → (visit_stop st s).0.scored ≡ s
unfolding visit_stop
visit_stop-stop st s = refl

visit_stop-visit :
    (st : LoopState) (s : ScoredPlace)
    → (visit_stop st s).0.visit ≡ visit_duration_min (visit_stop st s).0.scored.place.category
unfolding visit_stop
visit_stop-visit st s = refl

visit_stop-ends :
    (st : LoopState) (s : ScoredPlace)
    → (visit_stop st s).1.clock ≡ (visit_stop st s).0.start + (visit_stop st s).0.visit
unfolding visit_stop
visit_stop-ends st s = refl

after_visit-Arrives :
    (taken : Bool) (clock travel : ℕ)
    → Arrives taken clock travel
        (after_visit (at_time taken clock) travel).clock
        (after_visit (at_time taken clock) travel).lunch_taken
unfolding after_visit
after_visit-Arrives true clock travel = ground (arith, lunch_start_lem)
after_visit-Arrives false clock travel = ground (arith, lunch_start_lem)

abbrev HasVisit : Timed → Type 0
HasVisit t = t.visit ≡ visit_duration_min t.scored.place.category

-- The stops with their times: each with the visit of its category, and starting when the times before
-- have run.
pub record IsExact (lookup : Lookup) (taken : Bool) (arrival : ℕ) (timed : List Timed)
    : Type 0 where
  pub runs : Runs lookup taken arrival timed
  pub visits : All HasVisit timed

abbrev StartsWith : ScoredPlace → List Timed → Type 0
StartsWith s [] = Unit
StartsWith s (t ∷ ts) = t.scored ≡ s

module _ (lookup : Lookup) where
  more-Runs :
      (st : LoopState) (s next : ScoredPlace) (travel : ℕ) (more : List Timed)
      → hop_duration lookup s.place.id next.place.id ≡ ok travel
      → StartsWith next more
      → Runs lookup
          (after_visit (visit_stop st s).1 travel).lunch_taken
          (after_visit (visit_stop st s).1 travel).clock
          more
      → Runs lookup st.lunch_taken st.clock ((visit_stop st s).0 ∷ more)
  unfolding visit_stop
  more-Runs st s next travel [] hop e r = (_, visit_stop-Begins st.lunch_taken st.clock s)
  more-Runs st s next travel (u ∷ us) hop e r = (
    _,
    travel,
    _,
    _,
    visit_stop-Begins st.lunch_taken st.clock s,
    subst (λ (n : ScoredPlace). hop_duration lookup s.place.id n.place.id ≡ ok travel) (sym e) hop,
    subst
        (λ n.
          Arrives (visit_stop st s).1.lunch_taken n travel
            (after_visit (visit_stop st s).1 travel).clock
            (after_visit (visit_stop st s).1 travel).lunch_taken)
        (visit_stop-ends st s)
        (after_visit-Arrives (visit_stop st s).1.lunch_taken (visit_stop st s).1.clock travel),
    r,
  )

  time_stops-starts :
      (s : ScoredPlace) (rest : List ScoredPlace) (st : LoopState) {timed : List Timed}
      → time_stops lookup st (s ∷ rest) ≡ ok timed
      → StartsWith s timed
  time_stops-starts s rest st e =
      let (more, split) = first_timed lookup s rest st e in
      subst (StartsWith s) (sym split) (visit_stop-stop st s)

  pub time_stops-IsExact :
      (order : List ScoredPlace) (st : LoopState) {timed : List Timed}
      → time_stops lookup st order ≡ ok timed
      → IsExact lookup st.lunch_taken st.clock timed
  unfolding time_stops
  time_stops-IsExact [] st {timed} e =
      subst (IsExact lookup st.lunch_taken st.clock) (ok-eq-ok e)
        (record { runs = tt; visits = tt })
  time_stops-IsExact (s ∷ []) st {timed} e =
      subst (IsExact lookup st.lunch_taken st.clock) (ok-eq-ok e) (record {
        runs = (_, visit_stop-Begins st.lunch_taken st.clock s);
        visits = (visit_stop-visit st s, tt);
      })
  time_stops-IsExact (s ∷ next ∷ rest) st {timed} e =
      let left = (visit_stop st s).1 in
      let (travel, hop, e') = >>=-eq-ok (hop_duration lookup s.place.id next.place.id) _ e in
      let (more, rec, e'') =
        >>=-eq-ok (time_stops lookup (after_visit left travel) (next ∷ rest)) _ e' in
      let later = time_stops-IsExact (next ∷ rest) (after_visit left travel) rec in
      subst (IsExact lookup st.lunch_taken st.clock) (ok-eq-ok e'') (record {
        runs =
            more-Runs st s next travel more hop
              (time_stops-starts next rest (after_visit left travel) rec) later.runs;
        visits = (visit_stop-visit st s, later.visits);
      })
