-- ===== src/Travel/Days/Tests.antt =====
-- Three places on two days.
use agentic_guide_system.Prelude.{◌≤◌, ◌≡◌, refl, some, List, [], ◌∷◌, length, All, count_by}
use agentic_guide_system.Prelude.Int.{pos}
use agentic_guide_system.Prelude.Sort.{sort_by, min_by}
use agentic_guide_system.Travel.Rules.{visit_duration_min}
use agentic_guide_system.Travel.Samples.{geometry, stops, scored, monastery, viewpoint, cafe}
use agentic_guide_system.Travel.Places.{ScoredPlace, rank_leb}
use agentic_guide_system.Travel.Days.{
  allocate_days, pack, build_clusters, cluster_leb, place_all, place_item, can_add, is_morning_only,
  morning_count, day_visit_min,
}
use agentic_guide_system.Travel.Days.Budget.{FitsDay, allocate_days-FitsDay}
use agentic_guide_system.Travel.Days.Closing.{Settled, total}
use agentic_guide_system.Travel.Days.Overflow.{allocate_days-Settled, allocate_days-total}

-- The cluster of the two near places fills the first day, the other place takes the second.
abbrev two_days : List (List ScoredPlace)
two_days = (scored 14 viewpoint ∷ scored 10 monastery ∷ []) ∷ (scored 0 cafe ∷ []) ∷ []

allocate_days_stops : allocate_days geometry stops (pos 2) ≡ some two_days
unfolding allocate_days pack sort_by build_clusters rank_leb cluster_leb place_all place_item
    can_add min_by is_morning_only morning_count day_visit_min visit_duration_min
allocate_days_stops = refl

allocate_days-FitsDay_example :
    (days : List (List ScoredPlace)) × (allocate_days geometry stops (pos 2) ≡ some days)
    × (length days ≡ 2)
    × All FitsDay days
allocate_days-FitsDay_example = allocate_days-FitsDay geometry stops 1

allocate_days-Settled_example : All (Settled two_days) stops
allocate_days-Settled_example = allocate_days-Settled geometry stops 2 allocate_days_stops

allocate_days-total_example : total is_morning_only two_days ≤ count_by is_morning_only stops
allocate_days-total_example =
    allocate_days-total geometry stops 2 is_morning_only allocate_days_stops
