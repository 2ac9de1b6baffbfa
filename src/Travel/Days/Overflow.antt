-- ===== src/Travel/Days/Overflow.antt =====
-- Which places `allocate_days` (src/travel_engine/day_allocator.py) leaves out: only those that no
-- day of the result can take. No place is repeated or invented.
use agentic_guide_system.Prelude.{
  ℕ, zero, suc, ◌+◌, ◌≤◌, ◌<◌, ◌≡◌, refl, inl, inr, Bool, some, List, [], ◌∷◌, ◌++◌, length,
  replicate, All, All-map, count_by, count_by-append, leb, arith, subst, Bool-cases, some-eq-some,
}
use agentic_guide_system.Prelude.Int.{pos}
use agentic_guide_system.Prelude.Sort.{sort_by, All-of_sort_by, count_by-sort_by, sum_by-sort_by}
use agentic_guide_system.Travel.Rules.{cluster_radius_m}
use agentic_guide_system.Travel.Places.{ScoredPlace, rank_leb}
use agentic_guide_system.Travel.Days.{
  Geometry, distance_to_centroid, join_cluster, build_from, build_clusters, place_item, place_all,
  underfilled_day, pack, cluster_leb, allocate_days,
}
use agentic_guide_system.Travel.Days.Placement.{place_item-Placed, underfilled_day-lt}
use agentic_guide_system.Travel.Days.Closing.{
  Settled, Placed-Settled, Placed-Settled_self, Placed-length, total, Placed-total,
}

module _ (geo : Geometry) where
  -- What holds of every item of the clusters holds of the items that were clustered.
  module _ (P : ScoredPlace → Type 0) where
    snoc_All : (xs : List ScoredPlace) (y : ScoredPlace) → All P (xs ++ y ∷ []) → All P xs × P y
    snoc_All [] y h = (tt, h.0)
    snoc_All (x ∷ xs) y h = let (a, b) = snoc_All xs y h.1 in ((h.0, a), b)

    join_cluster-All :
        (clusters : List (List ScoredPlace)) (item : ScoredPlace)
        → All (All P) (join_cluster geo clusters item)
        → All (All P) clusters × P item
    unfolding join_cluster
    join_cluster-All [] item h = (tt, h.0.0)
    join_cluster-All (c ∷ cs) item h =
        elim (Bool-cases (leb (distance_to_centroid geo c item) cluster_radius_m)) [
          | inl e ↦ let (a, rest) = rw e at h in let (b, d) = snoc_All c item a in ((b, rest), d)
          | inr e ↦
              let (a, rest) = rw e at h in let (b, d) = join_cluster-All cs item rest in ((a, b), d)
        ]

    build_from-All :
        (clusters : List (List ScoredPlace)) (items : List ScoredPlace)
        → All (All P) (build_from geo clusters items)
        → All (All P) clusters × All P items
    unfolding build_from
    build_from-All clusters [] h = (h, tt)
    build_from-All clusters (item ∷ rest) h =
        let (a, b) = build_from-All (join_cluster geo clusters item) rest h in
        let (c, d) = join_cluster-All clusters item a in (c, (d, b))

  module _ (x : ScoredPlace) where
    place_all-keeps :
        (preferred : ℕ) (days : List (List ScoredPlace)) (items : List ScoredPlace)
        → preferred < length days
        → Settled days x
        → Settled (place_all geo preferred days items) x
    unfolding place_all
    place_all-keeps preferred days [] lt s = s
    place_all-keeps preferred days (item ∷ rest) lt s =
        let p = place_item-Placed days item geo preferred lt in
        place_all-keeps preferred (place_item geo preferred days item) rest
          (omega (arith, Placed-length days item p)) (Placed-Settled days item x p s)

  place_all-length :
      (preferred : ℕ) (days : List (List ScoredPlace)) (items : List ScoredPlace)
      → preferred < length days
      → length (place_all geo preferred days items) ≡ length days
  unfolding place_all
  place_all-length preferred days [] lt = refl
  place_all-length preferred days (item ∷ rest) lt =
      let e = Placed-length days item (place_item-Placed days item geo preferred lt) in
      omega (
        arith,
        e,
        place_all-length preferred (place_item geo preferred days item) rest (omega (arith, e)),
      )

  place_all-Settled :
      (preferred : ℕ) (days : List (List ScoredPlace)) (items : List ScoredPlace)
      → preferred < length days
      → All (Settled (place_all geo preferred days items)) items
  unfolding place_all
  place_all-Settled preferred days [] lt = tt
  place_all-Settled preferred days (item ∷ rest) lt =
      let p = place_item-Placed days item geo preferred lt in
      let after = place_item geo preferred days item in
      let lt' : preferred < length after = omega (arith, Placed-length days item p) in
      (
        place_all-keeps item preferred after rest lt' (Placed-Settled_self days item p),
        place_all-Settled preferred after rest lt',
      )

  place_all-total :
      (p : ScoredPlace → Bool) (preferred : ℕ) (days : List (List ScoredPlace))
      (items : List ScoredPlace)
      → preferred < length days
      → total p (place_all geo preferred days items) ≤ total p days + count_by p items
  unfolding place_all
  place_all-total p preferred days [] lt = omega arith
  place_all-total p preferred days (item ∷ rest) lt =
      let q = place_item-Placed days item geo preferred lt in
      let after = place_item geo preferred days item in
      let e = count_by-append p (item ∷ []) rest in
      omega (
        arith,
        e,
        Placed-total p days item q,
        place_all-total p preferred after rest (omega (arith, Placed-length days item q)),
      )

  module _ (cluster : List ScoredPlace) (days : List (List ScoredPlace)) where
    abbrev round : List (List ScoredPlace)
    round = place_all geo (underfilled_day geo days) days (sort_by rank_leb cluster)

    length-round : 0 < length days → length round ≡ length days
    length-round lt =
        place_all-length (underfilled_day geo days) days (sort_by rank_leb cluster)
          (underfilled_day-lt geo days lt)

  pack-keeps :
      (x : ScoredPlace) (days clusters : List (List ScoredPlace))
      → 0 < length days
      → Settled days x
      → Settled (pack geo days clusters) x
  unfolding pack
  pack-keeps x days [] lt s = s
  pack-keeps x days (cluster ∷ clusters) lt s =
      pack-keeps x (round cluster days) clusters (omega (arith, length-round cluster days lt)) (
        place_all-keeps x (underfilled_day geo days) days (sort_by rank_leb cluster)
          (underfilled_day-lt geo days lt) s)

  pack-Settled :
      (days clusters : List (List ScoredPlace))
      → 0 < length days
      → All (All (Settled (pack geo days clusters))) clusters
  unfolding pack
  pack-Settled days [] lt = tt
  pack-Settled days (cluster ∷ clusters) lt =
      let lt' : 0 < length (round cluster days) = omega (arith, length-round cluster days lt) in
      let settled =
        place_all-Settled (underfilled_day geo days) days (sort_by rank_leb cluster)
          (underfilled_day-lt geo days lt) in
      (
        All-map (Settled (round cluster days)) (Settled (pack geo (round cluster days) clusters))
            (λ x s. pack-keeps x (round cluster days) clusters lt' s) cluster
            (All-of_sort_by rank_leb (Settled (round cluster days)) cluster settled),
        pack-Settled (round cluster days) clusters lt',
      )

  pack-total :
      (p : ScoredPlace → Bool) (days clusters : List (List ScoredPlace))
      → 0 < length days
      → total p (pack geo days clusters) ≤ total p days + total p clusters
  unfolding pack
  pack-total p days [] lt = omega arith
  pack-total p days (cluster ∷ clusters) lt = omega (
    arith,
    place_all-total p (underfilled_day geo days) days (sort_by rank_leb cluster)
        (underfilled_day-lt geo days lt),
    count_by-sort_by rank_leb p cluster,
    pack-total p (round cluster days) clusters (omega (arith, length-round cluster days lt)),
  )

  total-join_cluster :
      (p : ScoredPlace → Bool) (clusters : List (List ScoredPlace)) (item : ScoredPlace)
      → total p (join_cluster geo clusters item) ≡ total p clusters + count_by p (item ∷ [])
  unfolding join_cluster
  total-join_cluster p [] item = omega arith
  total-join_cluster p (c ∷ cs) item =
      elim (Bool-cases (leb (distance_to_centroid geo c item) cluster_radius_m)) [
        | inl e ↦ rw e (omega (arith, count_by-append p c (item ∷ [])))
        | inr e ↦ rw e (omega (arith, total-join_cluster p cs item))
      ]

  total-build_from :
      (p : ScoredPlace → Bool) (clusters : List (List ScoredPlace)) (items : List ScoredPlace)
      → total p (build_from geo clusters items) ≡ total p clusters + count_by p items
  unfolding build_from
  total-build_from p clusters [] = omega arith
  total-build_from p clusters (item ∷ rest) = omega (
    arith,
    total-build_from p (join_cluster geo clusters item) rest,
    total-join_cluster p clusters item,
    count_by-append p (item ∷ []) rest,
  )

  total-replicate : (p : ScoredPlace → Bool) (n : ℕ) → total p (replicate n []) ≡ 0
  total-replicate p zero = refl
  total-replicate p (suc n) = omega (arith, total-replicate p n)

  -- Every selected place stands in some day of the result, or no day of the result can take it.
  pub allocate_days-Settled :
      (selected : List ScoredPlace) (n : ℕ) {days : List (List ScoredPlace)}
      → allocate_days geo selected (pos n) ≡ some days
      → All (Settled days) selected
  unfolding allocate_days build_clusters
  allocate_days-Settled selected zero h = cc
  allocate_days-Settled [] (suc n) h = tt
  allocate_days-Settled (s ∷ rest) (suc n) {days} h =
      let ordered = sort_by rank_leb (s ∷ rest) in
      let clusters = sort_by cluster_leb (build_from geo [] ordered) in
      let result = pack geo (replicate (suc n) []) clusters in
      let e : result ≡ days = some-eq-some _ _ h in
      let all =
        All-of_sort_by cluster_leb (All (Settled result)) (build_from geo [] ordered)
          (pack-Settled (replicate (suc n) []) clusters (omega arith)) in
      subst (λ d. All (Settled d) (s ∷ rest)) e
        (All-of_sort_by rank_leb (Settled result) (s ∷ rest)
          (build_from-All (Settled result) [] ordered all).1)

  -- No place is repeated or invented: the days together hold no more places with a property than
  -- the selection does, whatever the property.
  pub allocate_days-total :
      (selected : List ScoredPlace) (n : ℕ) (p : ScoredPlace → Bool)
      {days : List (List ScoredPlace)}
      → allocate_days geo selected (pos n) ≡ some days
      → total p days ≤ count_by p selected
  unfolding allocate_days build_clusters
  allocate_days-total selected zero p h = cc
  allocate_days-total [] (suc n) p {days} h =
      let e : replicate (suc n) [] ≡ days = some-eq-some _ _ h in
      rw (← e) (omega (arith, total-replicate p (suc n)))
  allocate_days-total (s ∷ rest) (suc n) p {days} h =
      let ordered = sort_by rank_leb (s ∷ rest) in
      let clusters = sort_by cluster_leb (build_from geo [] ordered) in
      let e : pack geo (replicate (suc n) []) clusters ≡ days = some-eq-some _ _ h in
      rw (← e) (
        omega (
          arith,
          pack-total p (replicate (suc n) []) clusters (omega arith),
          total-replicate p (suc n),
          sum_by-sort_by cluster_leb (count_by p) (build_from geo [] ordered),
          total-build_from p [] ordered,
          count_by-sort_by rank_leb p (s ∷ rest),
        ))
