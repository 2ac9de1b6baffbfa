-- ===== src/Travel/Schedule/Times.antt =====
-- The start times that the loop of `build_day_schedule` (src/travel_engine/schedule_builder.py)
-- gives to a day's stops.
use agentic_guide_system.Prelude.{
  ℕ, ◌+◌, ◌≤◌, ◌<◌, ◌≡◌, refl, sym, ap, ◌∙◌, subst, ◌⊎◌, true, false, List, [], ◌∷◌, map, All,
  arith,
}
use agentic_guide_system.Prelude.Result.{ok, ok-eq-ok, >>=-eq-ok}
use agentic_guide_system.Travel.Clock.{parse_hhmm}
use agentic_guide_system.Travel.Rules.{visit_duration_min}
use agentic_guide_system.Travel.Places.{ScoredPlace}
use agentic_guide_system.Travel.Route.{Lookup}
use agentic_guide_system.Travel.Schedule.{
  LoopState, Timed, after_visit, visit_stop, hop_duration, time_stops, lunch_start,
}

pub lunch_start_lem : lunch_start ≡ 780
unfolding parse_hhmm
lunch_start_lem = refl

-- The visit does not overlap the break from 13:00 to 14:00.
abbrev pub LeavesLunch : Timed → Type 0
LeavesLunch t = (t.start + t.visit ≤ 780) ⊎ (840 ≤ t.start)

-- Once lunch is taken the clock stands after it.
abbrev pub IsLoopState : LoopState → Type 0
IsLoopState st = st.lunch_taken ≡ true → 840 ≤ st.clock

pub record IsVisit (st : LoopState) (s : ScoredPlace) (t : Timed) (left : LoopState) : Type 0 where
  pub stop : t.scored ≡ s
  pub later : st.clock ≤ t.start
  pub lunch : LeavesLunch t
  pub length : t.visit ≡ visit_duration_min s.place.category
  pub ends : left.clock ≡ t.start + t.visit
  pub state : IsLoopState left

visit_stop-IsVisit :
    (st : LoopState) (s : ScoredPlace)
    → IsLoopState st
    → IsVisit st s (visit_stop st s).0 (visit_stop st s).1
unfolding visit_stop
visit_stop-IsVisit st s h = ground (arith, lunch_start_lem)

pub record IsWay (left : LoopState) (travel : ℕ) (after : LoopState) : Type 0 where
  pub later : left.clock ≤ after.clock
  pub whole : travel ≤ 60 → left.clock + travel ≤ after.clock
  pub state : IsLoopState after

after_visit-IsWay :
    (left : LoopState) (travel : ℕ) → IsLoopState left → IsWay left travel (after_visit left travel)
unfolding after_visit
after_visit-IsWay left travel h = ground (arith, lunch_start_lem)

-- Each stop starts no earlier than the one before ends.
abbrev pub InSequence : ℕ → List Timed → Type 0
InSequence from_time [] = Unit
InSequence from_time (t ∷ rest) = (from_time ≤ t.start) × InSequence (t.start + t.visit) rest

-- Each stop starts no earlier than the way from the one before takes.
abbrev pub InReach : Lookup → List Timed → Type 0
InReach lookup [] = Unit
InReach lookup (t ∷ []) = Unit
InReach lookup (t ∷ u ∷ rest) =
    ((travel : ℕ)
      → hop_duration lookup t.scored.place.id u.scored.place.id ≡ ok travel
      → travel ≤ 60
      → t.start + t.visit + travel ≤ u.start)
    × InReach lookup (u ∷ rest)

pub record IsTimetable (lookup : Lookup) (from_time : ℕ) (order : List ScoredPlace)
    (timed : List Timed) : Type 0 where
  pub stops : map (λ t. t.scored) timed ≡ order
  pub sequence : InSequence from_time timed
  pub lunch : All LeavesLunch timed
  pub reach : InReach lookup timed

pub InSequence-earlier :
    (a b : ℕ) (timed : List Timed) → a ≤ b → InSequence b timed → InSequence a timed
InSequence-earlier a b [] h s = tt
InSequence-earlier a b (t ∷ rest) h s = (omega arith, s.1)

module _ (lookup : Lookup) where
  one-IsTimetable :
      (st : LoopState) (s : ScoredPlace)
      → IsLoopState st
      → IsTimetable lookup st.clock (s ∷ []) ((visit_stop st s).0 ∷ [])
  one-IsTimetable st s h =
      let v = visit_stop-IsVisit st s h in
      record {
        stops = ap (λ x. x ∷ []) v.stop;
        sequence = (v.later, tt);
        lunch = (v.lunch, tt);
        reach = tt;
      }

  -- One iteration in front of the times of the rest.
  more-IsTimetable :
      (st : LoopState) (s next : ScoredPlace) (rest : List ScoredPlace) (travel : ℕ)
      (more : List Timed)
      → IsLoopState st
      → hop_duration lookup s.place.id next.place.id ≡ ok travel
      → IsTimetable lookup (after_visit (visit_stop st s).1 travel).clock (next ∷ rest) more
      → IsTimetable lookup st.clock (s ∷ next ∷ rest) ((visit_stop st s).0 ∷ more)
  more-IsTimetable st s next rest travel [] h e m = absurd (cc m.stops)
  more-IsTimetable st s next rest travel (u ∷ us) h e m =
      let v = visit_stop-IsVisit st s h in
      let w = after_visit-IsWay (visit_stop st s).1 travel v.state in
      record {
        stops = cc (v.stop, m.stops);
        sequence = (v.later, (omega (arith, v.ends, w.later, m.sequence.0), m.sequence.1));
        lunch = (v.lunch, m.lunch);
        reach = (
          λ t' e' short.
              let same : t' ≡ travel = cc (v.stop, m.stops, e, e') in
              omega (arith, v.ends, w.whole, m.sequence.0, same),
          m.reach,
        );
      }

  pub time_stops-IsTimetable :
      (order : List ScoredPlace) (st : LoopState) {timed : List Timed}
      → IsLoopState st
      → time_stops lookup st order ≡ ok timed
      → IsTimetable lookup st.clock order timed
  unfolding time_stops
  time_stops-IsTimetable [] st {timed} h e =
      subst (IsTimetable lookup st.clock []) (ok-eq-ok e)
        (record { stops = refl; sequence = tt; lunch = tt; reach = tt })
  time_stops-IsTimetable (s ∷ []) st {timed} h e =
      subst (IsTimetable lookup st.clock (s ∷ [])) (ok-eq-ok e) (one-IsTimetable st s h)
  time_stops-IsTimetable (s ∷ next ∷ rest) st {timed} h e =
      let left = (visit_stop st s).1 in
      let (travel, hop, e') = >>=-eq-ok (hop_duration lookup s.place.id next.place.id) _ e in
      let (more, rec, e'') =
        >>=-eq-ok (time_stops lookup (after_visit left travel) (next ∷ rest)) _ e' in
      let v = visit_stop-IsVisit st s h in
      let w = after_visit-IsWay left travel v.state in
      subst (IsTimetable lookup st.clock (s ∷ next ∷ rest)) (ok-eq-ok e'') (
        more-IsTimetable st s next rest travel more h hop
          (time_stops-IsTimetable (next ∷ rest) (after_visit left travel) w.state rec))

  -- The first stop of the loop starts its times.
  pub first_timed :
      (s : ScoredPlace) (rest : List ScoredPlace) (st : LoopState) {timed : List Timed}
      → time_stops lookup st (s ∷ rest) ≡ ok timed
      → (more : List Timed) × (timed ≡ (visit_stop st s).0 ∷ more)
  unfolding time_stops
  first_timed s [] st e = ([], sym (ok-eq-ok e))
  first_timed s (next ∷ rest) st e =
      let (travel, hop, e') = >>=-eq-ok (hop_duration lookup s.place.id next.place.id) _ e in
      let (more, rec, e'') =
        >>=-eq-ok (time_stops lookup (after_visit (visit_stop st s).1 travel) (next ∷ rest)) _ e' in
      (more, sym (ok-eq-ok e''))

  -- Where lunch is not taken yet, a visit ends before 13:00 and the way to the next stop ends after
  -- 14:00, the next visit starts at 14:00, before the way is over, whatever stops follow.
  pub lunch_swallows_travel :
      (st : LoopState) (s next : ScoredPlace) (rest : List ScoredPlace) (travel : ℕ)
      {timed : List Timed}
      → st.lunch_taken ≡ false
      → st.clock + visit_duration_min s.place.category < 780
      → hop_duration lookup s.place.id next.place.id ≡ ok travel
      → 840 < st.clock + visit_duration_min s.place.category + travel
      → time_stops lookup st (s ∷ next ∷ rest) ≡ ok timed
      → (t : Timed) × (u : Timed) × (more : List Timed) × (timed ≡ t ∷ u ∷ more)
        × (u.start ≡ 840)
        × (u.start < t.start + t.visit + travel)
  unfolding time_stops
  lunch_swallows_travel st s next rest travel {timed} free before hop long e =
      let left = (visit_stop st s).1 in
      let (t', hop', e') = >>=-eq-ok (hop_duration lookup s.place.id next.place.id) _ e in
      let (later, rec, e'') =
        >>=-eq-ok (time_stops lookup (after_visit left t') (next ∷ rest)) _ e' in
      let same : t' ≡ travel = ok-eq-ok (sym hop' ∙ hop) in
      let (more, split) = first_timed next rest (after_visit left t') rec in
      let start = (visit_stop (after_visit left t') next).0 in
      (
        (visit_stop st s).0,
        start,
        more,
        sym (ok-eq-ok e'') ∙ ap (λ ts. (visit_stop st s).0 ∷ ts) split,
        subst (λ n. (visit_stop (after_visit left n) next).0.start ≡ 840) (sym same) at_two,
        subst
            (λ n.
              (visit_stop (after_visit left n) next).0.start
              < (visit_stop st s).0.start + (visit_stop st s).0.visit + travel)
            (sym same) swallowed,
      )
    where
      at_two : (visit_stop (after_visit (visit_stop st s).1 travel) next).0.start ≡ 840
      at_two = ground (arith, lunch_start_lem)

      swallowed :
          (visit_stop (after_visit (visit_stop st s).1 travel) next).0.start
          < (visit_stop st s).0.start + (visit_stop st s).0.visit + travel
      swallowed = ground (arith, lunch_start_lem)
