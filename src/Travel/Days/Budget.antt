-- ===== src/Travel/Days/Budget.antt =====
-- The caps that every day of `allocate_days` (src/travel_engine/day_allocator.py) respects.
use agentic_guide_system.Prelude.{
  ℕ, zero, suc, ◌≤◌, ◌<◌, ◌≡◌, refl, ◌∙◌, true, some, List, [], ◌∷◌, ◌++◌, length, replicate, All,
  length-append, length-replicate, sum_by-append, count_by-append, arith,
}
use agentic_guide_system.Prelude.Int.{pos}
use agentic_guide_system.Prelude.Sort.{sort_by}
use agentic_guide_system.Travel.Rules.{
  max_places_per_day, active_day_visit_budget_min, visit_duration_min,
}
use agentic_guide_system.Travel.Places.{ScoredPlace, rank_leb}
use agentic_guide_system.Travel.Days.{
  Geometry, max_morning_only_per_day, is_morning_only, day_visit_min, morning_count, can_add,
  day_at, append_at, place_item, place_all, underfilled_day, pack, allocate_days,
}
use agentic_guide_system.Travel.Days.Placement.{
  Placed, placed, omitted, place_item-Placed, underfilled_day-lt, length-append_at,
}

-- The caps of one day.
pub record FitsDay (day : List ScoredPlace) : Type 0 where
  pub places : length day ≤ max_places_per_day
  pub visits : day_visit_min day ≤ active_day_visit_budget_min
  pub mornings : morning_count day ≤ max_morning_only_per_day

nil-FitsDay : FitsDay []
unfolding day_visit_min morning_count
nil-FitsDay = omega arith

add-FitsDay :
    (day : List ScoredPlace) (item : ScoredPlace)
    → can_add day item ≡ true
    → FitsDay day
    → FitsDay (day ++ item ∷ [])
unfolding can_add day_visit_min morning_count
add-FitsDay day item h f = ground (
  arith,
  length-append day (item ∷ []),
  sum_by-append (λ s. visit_duration_min s.place.category) day (item ∷ []),
  count_by-append is_morning_only day (item ∷ []),
)

append_at-FitsDay :
    (days : List (List ScoredPlace)) (i : ℕ) (item : ScoredPlace)
    → can_add (day_at days i) item ≡ true
    → All FitsDay days
    → All FitsDay (append_at days i item)
append_at-FitsDay [] i item h f = tt
append_at-FitsDay (day ∷ days) zero item h f = (add-FitsDay day item h f.0, f.1)
append_at-FitsDay (day ∷ days) (suc i) item h f = (f.0, append_at-FitsDay days i item h f.1)

-- What the loops keep: the number of days, and the caps.
abbrev Kept : ℕ → List (List ScoredPlace) → Type 0
Kept n days = (length days ≡ n) × All FitsDay days

Placed-Kept :
    (n : ℕ) (days : List (List ScoredPlace)) (item : ScoredPlace) {after : List (List ScoredPlace)}
    → Placed days item after
    → Kept n days
    → Kept n after
Placed-Kept n days item (placed i lt can) k =
    (length-append_at days i item ∙ k.0, append_at-FitsDay days i item can k.1)
Placed-Kept n days item (omitted closed) k = k

module _ (geo : Geometry) where
  place_all-Kept :
      (n preferred : ℕ) (days : List (List ScoredPlace)) (items : List ScoredPlace)
      → preferred < n
      → Kept n days
      → Kept n (place_all geo preferred days items)
  unfolding place_all
  place_all-Kept n preferred days [] lt k = k
  place_all-Kept n preferred days (item ∷ rest) lt k =
      place_all-Kept n preferred (place_item geo preferred days item) rest lt
        (Placed-Kept n days item (place_item-Placed days item geo preferred (omega arith)) k)

  pack-Kept :
      (n : ℕ) (days clusters : List (List ScoredPlace))
      → 0 < n
      → Kept n days
      → Kept n (pack geo days clusters)
  unfolding pack
  pack-Kept n days [] lt k = k
  pack-Kept n days (cluster ∷ clusters) lt k =
      pack-Kept n (place_all geo (underfilled_day geo days) days (sort_by rank_leb cluster))
        clusters lt
        (place_all-Kept n (underfilled_day geo days) days (sort_by rank_leb cluster)
          (omega (arith, underfilled_day-lt geo days)) k)

  replicate-Kept : (n : ℕ) → Kept n (replicate n [])
  replicate-Kept n = (length-replicate n [], go n)
    where
      go : (m : ℕ) → All FitsDay (replicate m [])
      go zero = tt
      go (suc m) = (nil-FitsDay, go m)

  -- For one day or more the allocation succeeds with exactly that many days, and every day holds at
  -- most 6 places, at most 450 minutes of visits and at most 2 morning-only places.
  pub allocate_days-FitsDay :
      (selected : List ScoredPlace) (n : ℕ)
      → (days : List (List ScoredPlace)) × (allocate_days geo selected (pos (suc n)) ≡ some days)
        × (length days ≡ suc n)
        × All FitsDay days
  unfolding allocate_days
  allocate_days-FitsDay [] n =
      let (len, fits) = replicate-Kept (suc n) in (replicate (suc n) [], refl, len, fits)
  allocate_days-FitsDay (s ∷ rest) n =
      let (len, fits) =
        pack-Kept (suc n) (replicate (suc n) []) _ (omega arith) (replicate-Kept (suc n)) in
      (_, refl, len, fits)
