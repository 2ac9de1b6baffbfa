-- ===== src/Travel/Days.antt =====
-- src/travel_engine/day_allocator.py: packing the scored places into one list for each day.
-- Float geometry (`_haversine_km`, the mean of coordinates) is the parameter `Geometry`.
pub mod Closing
pub mod Placement
pub mod Budget
pub mod Overflow
pub mod Tests
use Prim.Native.Nat.{compare, Ordering, max}
use agentic_guide_system.Prelude.{
  ℕ, zero, suc, ◌+◌, ◌-◌, Option, none, some, Bool, true, false, ◌&&◌, List, [], ◌∷◌, ◌++◌, length,
  keep, sum_by, count_by, replicate, get_or, leb, if◌then◌else◌,
}
use agentic_guide_system.Prelude.Int.{ℤ, pos, negsuc}
use agentic_guide_system.Prelude.Order.{and_then, at_most}
use agentic_guide_system.Prelude.Sort.{sort_by, min_by}
use agentic_guide_system.Travel.Rules.{
  max_places_per_day, active_day_visit_budget_min, cluster_radius_m, morning_only_categories,
  visit_duration_min,
}
use agentic_guide_system.Travel.Places.{ScoredPlace, contains, rank_leb}

-- Distances in metres between coordinates, and the centroid of some places.
pub record Geometry : Type 0 where
  pub haversine_m : ℤ → ℤ → ℤ → ℤ → ℕ
  pub centroid : List ScoredPlace → ℤ × ℤ

abbrev pub max_morning_only_per_day : ℕ
max_morning_only_per_day = 2

unfoldable pub is_morning_only : ScoredPlace → Bool
is_morning_only s = contains morning_only_categories s.place.category

unfoldable pub day_visit_min : List ScoredPlace → ℕ
day_visit_min day = sum_by (λ s. visit_duration_min s.place.category) day

unfoldable pub morning_count : List ScoredPlace → ℕ
morning_count day = count_by is_morning_only day

unfoldable pub can_add : List ScoredPlace → ScoredPlace → Bool
can_add day place =
    if leb max_places_per_day (length day)
    then false
    else if is_morning_only place && leb max_morning_only_per_day (morning_count day)
    then false
    else leb (day_visit_min day + visit_duration_min place.place.category)
        active_day_visit_budget_min

-- range(k, k + n)
abbrev pub range_from : ℕ → ℕ → List ℕ
range_from k zero = []
range_from k (suc n) = k ∷ range_from (suc k) n

-- day_lists[i]
abbrev pub day_at : List (List ScoredPlace) → ℕ → List ScoredPlace
day_at days i = get_or days i []

-- day_lists[i].append(item)
abbrev pub append_at : List (List ScoredPlace) → ℕ → ScoredPlace → List (List ScoredPlace)
append_at [] i item = []
append_at (day ∷ days) zero item = (day ++ item ∷ []) ∷ days
append_at (day ∷ days) (suc i) item = day ∷ append_at days i item

-- Some candidate days, in order of preference: the first of them takes the item.
spill : List (List ScoredPlace) → ScoredPlace → List ℕ → List (List ScoredPlace)
spill days item [] = days
spill days item (di ∷ _) = append_at days di item

abbrev max_score : List ScoredPlace → ℕ
max_score [] = 0
max_score (s ∷ rest) = max s.score (max_score rest)

-- The key `(-max(score), -len)`.
unfoldable pub cluster_leb : List ScoredPlace → List ScoredPlace → Bool
cluster_leb c d =
    at_most (and_then (compare (max_score d) (max_score c)) (compare (length d) (length c)))

module _ (geo : Geometry) where
  -- haversine between a place and the centroid of some places
  pub distance_to_centroid : List ScoredPlace → ScoredPlace → ℕ
  distance_to_centroid cluster item =
      let (c_lat, c_lng) = geo.centroid cluster in
      geo.haversine_m item.place.lat item.place.lng c_lat c_lng

  distance_to_day : List ScoredPlace → ScoredPlace → ℕ
  unfolding distance_to_centroid
  distance_to_day [] place = cluster_radius_m
  distance_to_day (s ∷ day) place = distance_to_centroid (s ∷ day) place

  -- The inner loop of `_build_clusters`: the first cluster in reach, or a new one.
  pub join_cluster : List (List ScoredPlace) → ScoredPlace → List (List ScoredPlace)
  unfolding distance_to_centroid
  join_cluster [] item = (item ∷ []) ∷ []
  join_cluster (cluster ∷ clusters) item =
      let rest = join_cluster clusters item in
      if leb (distance_to_centroid cluster item) cluster_radius_m
      then (cluster ++ item ∷ []) ∷ clusters
      else cluster ∷ rest

  build_from : List (List ScoredPlace) → List ScoredPlace → List (List ScoredPlace)
  unfolding join_cluster
  build_from clusters [] = clusters
  build_from clusters (item ∷ rest) = build_from (join_cluster clusters item) rest

  unfoldable pub build_clusters : List ScoredPlace → List (List ScoredPlace)
  unfolding build_from
  build_clusters ordered = build_from [] ordered

  -- The key `(_distance_to_day(day_lists[di], item), len(day_lists[di]), di)`.
  spill_leb : List (List ScoredPlace) → ScoredPlace → ℕ → ℕ → Bool
  unfolding distance_to_day
  spill_leb days item i j = at_most (
      and_then
        (compare (distance_to_day (day_at days i) item) (distance_to_day (day_at days j) item))
        (and_then (compare (length (day_at days i)) (length (day_at days j))) (compare i j)))

  -- The body of the inner loop of `allocate_days`.
  unfoldable pub place_item : ℕ → List (List ScoredPlace) → ScoredPlace → List (List ScoredPlace)
  unfolding spill spill_leb
  place_item preferred days item =
      if can_add (day_at days preferred) item
      then append_at days preferred item
      else spill days item (
          sort_by (spill_leb days item)
            (keep (λ di. can_add (day_at days di) item) (range_from 0 (length days))))

  unfoldable pub place_all :
      ℕ → List (List ScoredPlace) → List ScoredPlace → List (List ScoredPlace)
  place_all preferred days [] = days
  place_all preferred days (item ∷ rest) = place_all preferred (place_item preferred days item) rest

  -- `min(range(days), key=lambda i: (len(day_lists[i]), i))`
  unfoldable pub underfilled_day : List (List ScoredPlace) → ℕ
  underfilled_day days =
      min_by
        (λ i j.
          at_most
            (and_then (compare (length (day_at days i)) (length (day_at days j))) (compare i j)))
        0 (range_from 1 (length days - 1))

  unfoldable pub pack : List (List ScoredPlace) → List (List ScoredPlace) → List (List ScoredPlace)
  unfolding underfilled_day
  pack days [] = days
  pack days (cluster ∷ clusters) =
      pack (place_all (underfilled_day days) days (sort_by rank_leb cluster)) clusters

  -- `none` is the `ValueError` on `days < 1`.
  unfoldable pub allocate_days : List ScoredPlace → ℤ → Option (List (List ScoredPlace))
  allocate_days selected (negsuc n) = none
  allocate_days selected (pos zero) = none
  allocate_days [] (pos (suc n)) = some (replicate (suc n) [])
  allocate_days (s ∷ rest) (pos (suc n)) = some (
      pack (replicate (suc n) [])
        (sort_by cluster_leb (build_clusters (sort_by rank_leb (s ∷ rest)))))
