-- ===== src/Planner/Replanning/Weakest.antt =====
-- src/planner/tools/drop_weakest_stop.py: which day and which stop of it are chosen.
use agentic_guide_system.Prelude.{
  ◌≤◌, ◌≡◌, refl, inl, inr, true, false, List, [], ◌∷◌, All, OneOf, ltb, arith, Bool-cases,
}
use agentic_guide_system.Travel.Places.{ScoredPlace}
use agentic_guide_system.Travel.Route.{pick_lowest_scored, weaker_leb}
use agentic_guide_system.Prelude.Sort.{min_by}
use agentic_guide_system.Planner.Schemas.{RouteDay}
use agentic_guide_system.Planner.Replanning.{worst_day}

-- A day of the route, and none has more travel.
pub record IsWorst (route : List RouteDay) (day : RouteDay) : Type 0 where
  pub member : OneOf route day
  pub most : All (λ d. d.total_travel_min ≤ day.total_travel_min) route

-- A stop of the day, and none has a lower score.
pub record IsWeakest (stops : List ScoredPlace) (victim : ScoredPlace) : Type 0 where
  pub member : OneOf stops victim
  pub least : All (λ s. victim.score ≤ s.score) stops

worse :
    (best day : RouteDay) (days : List RouteDay)
    → IsWorst (day ∷ days) (worst_day day days)
    → best.total_travel_min ≤ day.total_travel_min
    → IsWorst (best ∷ day ∷ days) (worst_day day days)
worse best day days w h = record { member = inr w.member; most = (omega (arith, w.most.0), w.most) }

pub worst_day-IsWorst :
    (best : RouteDay) (days : List RouteDay) → IsWorst (best ∷ days) (worst_day best days)
unfolding worst_day
worst_day-IsWorst best [] = record { member = inl refl; most = (omega arith, tt) }
worst_day-IsWorst best (day ∷ days) =
    elim (Bool-cases (ltb best.total_travel_min day.total_travel_min)) [
      | inl less ↦ rw less (worse best day days (worst_day-IsWorst day days) (ground arith))
      | inr not_less ↦ rw not_less (passed (worst_day-IsWorst best days) (ground arith))
    ]
  where
    passed :
        IsWorst (best ∷ days) (worst_day best days)
        → day.total_travel_min ≤ best.total_travel_min
        → IsWorst (best ∷ day ∷ days) (worst_day best days)
    passed w h = record {
      member = elim w.member [ inl e ↦ inl e | inr m ↦ inr (inr m) ];
      most = (w.most.0, (omega (arith, w.most.0, h), w.most.1));
    }

weaker-le : (s t : ScoredPlace) → weaker_leb s t ≡ true → s.score ≤ t.score
unfolding weaker_leb
weaker-le s t h = ground arith

not_weaker-le : (s t : ScoredPlace) → weaker_leb s t ≡ false → t.score ≤ s.score
unfolding weaker_leb
not_weaker-le s t h = ground arith

min_by-IsWeakest :
    (best : ScoredPlace) (stops : List ScoredPlace)
    → IsWeakest (best ∷ stops) (min_by weaker_leb best stops)
unfolding min_by
min_by-IsWeakest best [] = record { member = inl refl; least = (omega arith, tt) }
min_by-IsWeakest best (s ∷ stops) = elim (Bool-cases (weaker_leb best s)) [
  | inl less ↦ rw less (stays (min_by-IsWeakest best stops) (weaker-le best s less))
  | inr not_less ↦ rw not_less (yields (min_by-IsWeakest s stops) (not_weaker-le best s not_less))
]
  where
    stays :
        IsWeakest (best ∷ stops) (min_by weaker_leb best stops)
        → best.score ≤ s.score
        → IsWeakest (best ∷ s ∷ stops) (min_by weaker_leb best stops)
    stays w h = record {
      member = elim w.member [ inl e ↦ inl e | inr m ↦ inr (inr m) ];
      least = (w.least.0, (omega (arith, w.least.0, h), w.least.1));
    }

    yields :
        IsWeakest (s ∷ stops) (min_by weaker_leb s stops)
        → s.score ≤ best.score
        → IsWeakest (best ∷ s ∷ stops) (min_by weaker_leb s stops)
    yields w h = record { member = inr w.member; least = (omega (arith, w.least.0, h), w.least) }

pub pick_lowest_scored-IsWeakest :
    (s : ScoredPlace) (rest : List ScoredPlace) → IsWeakest (s ∷ rest) (pick_lowest_scored s rest)
unfolding pick_lowest_scored
pick_lowest_scored-IsWeakest s rest = min_by-IsWeakest s rest
