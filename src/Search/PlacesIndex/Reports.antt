-- ===== src/Search/PlacesIndex/Reports.antt =====
-- src/search/places_index.py: the report is a sidecar of the hits, and a failure has no hits.
use agentic_guide_system.Prelude.{
  ℕ, ◌+◌, ◌*◌, ◌≤◌, ◌≡◌, refl, Bool, true, false, not, ◌&&◌, ◌||◌, String, Option, none, some, List,
  [], ◌∷◌, length, is_empty, str_eq, arith, Bool-cases, if_ind, inl, inr, if◌then◌else◌,
}
use agentic_guide_system.Search.PlacesIndex.{
  Point, PlaceSearchResult, Diagnostics, PlaceSearchOutcome, SearchSettings, Vector, SparseVector,
  Query, by_dense, by_fusion, Service, hit_or_skip, hits_from_points, place_ids, report,
  unavailable, after_fusion, after_dense, search_dense, search_vector,
  search_places_with_diagnostics, search_places,
}

abbrev pub is_there : Option Diagnostics → Bool
is_there none = false
is_there (some d) = true

-- A report, where there is one, names the hits in their order and the limit that was asked for.
abbrev pub IsReport : ℕ → List PlaceSearchResult → Option Diagnostics → Type 0
IsReport top_k hits none = Unit
IsReport top_k hits (some d) = (d.fused_place_ids ≡ place_ids hits) × (d.top_k ≡ top_k)

-- No more points than the limit.
abbrev pub AtMost : ℕ → Option (List Point) → Type 0
AtMost limit none = Unit
AtMost limit (some points) = length points ≤ limit

pub record IsSearched (settings : SearchSettings) (top_k : ℕ) (outcome : PlaceSearchOutcome)
    : Type 0 where
  pub bounded : length outcome.hits ≤ top_k
  pub reported : is_there outcome.diagnostics ≡ settings.search_fusion_diagnostics
  pub named : IsReport top_k outcome.hits outcome.diagnostics

length-hit_or_skip :
    (place_id : Option String) (point : Point) (rest : List PlaceSearchResult)
    → length (hit_or_skip place_id point rest) ≤ length rest + 1
unfolding hit_or_skip
length-hit_or_skip none point rest = omega arith
length-hit_or_skip (some place_id) point rest =
    if_ind (λ (hits : List PlaceSearchResult). length hits ≤ length rest + 1) (str_eq place_id "")
      (omega arith) (omega arith)

length-hits_from_points : (points : List Point) → length (hits_from_points points) ≤ length points
unfolding hits_from_points
length-hits_from_points [] = omega arith
length-hits_from_points (point ∷ points) = omega (
  arith,
  length-hit_or_skip point.place_id point (hits_from_points points),
  length-hits_from_points points,
)

-- The hits of an answer of the index; a failure has none.
abbrev pub found : Option (List Point) → List PlaceSearchResult
found none = []
found (some points) = hits_from_points points

-- What a search asks the index, for no more than what the service and the switch of the sparse vectors
-- tell; `none` is no question, or a failure.
abbrev pub asked : Service → Bool → String → ℕ → ℕ → Option (List Point)
asked service sparse_enabled query destination_id top_k =
    let vector = service.embed_text query in
    let sparse = service.encode_sparse query in
    let hybrid = service.collection_uses_hybrid_schema in
    if not service.is_qdrant_available || is_empty vector
    then none
    else if (hybrid && sparse_enabled && service.is_sparse_available)
        && not (is_empty sparse.indices)
    then service.query_points (by_fusion vector sparse (top_k * 2)) destination_id top_k
    else service.query_points (by_dense vector (if hybrid then some "dense" else none))
        destination_id top_k

-- Two ways to a list of hits, each of them the hits of its answer.
chosen_hits :
    (test : Bool) (a b : PlaceSearchOutcome) (answer other : Option (List Point))
    → a.hits ≡ found answer
    → b.hits ≡ found other
    → (if test then a else b).hits ≡ found (if test then answer else other)
chosen_hits true a b answer other e f = e
chosen_hits false a b answer other e f = f

module _ (settings : SearchSettings) (service : Service) where
  module _ (mode : String) (sparse_enabled : Bool) (top_k : ℕ) (hits : List PlaceSearchResult)
      (dense sparse : List String) where
    abbrev made : Option Diagnostics
    made = report settings service mode sparse_enabled top_k (place_ids hits) dense sparse

    reported-IsSearched :
        length hits ≤ top_k → IsSearched settings top_k (record { hits = hits; diagnostics = made })
    unfolding report
    reported-IsSearched h = elim (Bool-cases settings.search_fusion_diagnostics) [
      | inl e ↦ record { bounded = h; reported = rw e refl; named = rw e (refl, refl) }
      | inr e ↦ record { bounded = h; reported = rw e refl; named = rw e tt }
    ]

  unavailable-IsSearched :
      (top_k : ℕ) → IsSearched settings top_k (unavailable settings service top_k)
  unfolding unavailable place_ids
  unavailable-IsSearched top_k =
      reported-IsSearched "unavailable" settings.search_sparse_enabled top_k [] [] [] (omega arith)

  after_fusion-IsSearched :
      (vector : Vector) (sparse : SparseVector) (destination_id top_k : ℕ)
      (answer : Option (List Point))
      → AtMost top_k answer
      → IsSearched settings top_k
          (after_fusion settings service vector sparse destination_id top_k answer)
  unfolding after_fusion
  after_fusion-IsSearched vector sparse destination_id top_k none h = unavailable-IsSearched top_k
  after_fusion-IsSearched vector sparse destination_id top_k (some points) h =
      reported-IsSearched "hybrid_rrf" true top_k (hits_from_points points) _ _
        (omega (arith, length-hits_from_points points))

  after_dense-IsSearched :
      (top_k : ℕ) (answer : Option (List Point))
      → AtMost top_k answer
      → IsSearched settings top_k (after_dense settings service top_k answer)
  unfolding after_dense
  after_dense-IsSearched top_k none h = unavailable-IsSearched top_k
  after_dense-IsSearched top_k (some points) h =
      reported-IsSearched "dense_only" settings.search_sparse_enabled top_k
        (hits_from_points points) (place_ids (hits_from_points points)) []
        (omega (arith, length-hits_from_points points))

  search_vector-IsSearched :
      (vector : Vector) (sparse : SparseVector) (destination_id top_k : ℕ)
      → ((query : Query) (d limit : ℕ) → AtMost limit (service.query_points query d limit))
      → IsSearched settings top_k
          (search_vector settings service vector sparse destination_id top_k)
  unfolding search_vector search_dense
  search_vector-IsSearched vector sparse destination_id top_k limited =
      let using = if service.collection_uses_hybrid_schema then some "dense" else none in
      if_ind (IsSearched settings top_k) _
        (after_fusion-IsSearched vector sparse destination_id top_k _
          (limited (by_fusion vector sparse (top_k * 2)) destination_id top_k))
        (after_dense-IsSearched top_k _ (limited (by_dense vector using) destination_id top_k))

  after_fusion-found :
      (vector : Vector) (sparse : SparseVector) (destination_id top_k : ℕ)
      (answer : Option (List Point))
      → (after_fusion settings service vector sparse destination_id top_k answer).hits
        ≡ found answer
  unfolding after_fusion unavailable
  after_fusion-found vector sparse destination_id top_k none = refl
  after_fusion-found vector sparse destination_id top_k (some points) = refl

  after_dense-found :
      (top_k : ℕ) (answer : Option (List Point))
      → (after_dense settings service top_k answer).hits ≡ found answer
  unfolding after_dense unavailable
  after_dense-found top_k none = refl
  after_dense-found top_k (some points) = refl

  -- The hits are those of the one answer that the search asks for, report or not.
  search_places-asked :
      (query : String) (destination_id top_k : ℕ)
      → search_places settings service query destination_id top_k
        ≡ found (asked service settings.search_sparse_enabled query destination_id top_k)
  unfolding search_places search_places_with_diagnostics search_vector search_dense unavailable
  search_places-asked query destination_id top_k =
      let vector = service.embed_text query in
      let sparse = service.encode_sparse query in
      let hybrid = service.collection_uses_hybrid_schema in
      let fused = service.query_points (by_fusion vector sparse (top_k * 2)) destination_id top_k in
      let ranked =
        service.query_points (by_dense vector (if hybrid then some "dense" else none))
          destination_id top_k in
      let use_rrf = hybrid && settings.search_sparse_enabled && service.is_sparse_available in
      chosen_hits (not service.is_qdrant_available || is_empty vector)
        (unavailable settings service top_k)
        (search_vector settings service vector sparse destination_id top_k) none
        (if use_rrf && not (is_empty sparse.indices) then fused else ranked) refl
        (chosen_hits (use_rrf && not (is_empty sparse.indices))
          (after_fusion settings service vector sparse destination_id top_k fused)
          (after_dense settings service top_k ranked) fused ranked
          (after_fusion-found vector sparse destination_id top_k fused)
          (after_dense-found top_k ranked))

  -- With an index that answers no more points than the limit of the query, a search gives the hits of
  -- the one answer that it asks for, or none where something fails, and top_k at most; they do not
  -- depend on the wish for a report. There is a report exactly when the settings want one, and it names
  -- the hits in their order and top_k.
  pub search_places_with_diagnostics-IsSearched :
      (query : String) (destination_id top_k : ℕ)
      → ((q : Query) (d limit : ℕ) → AtMost limit (service.query_points q d limit))
      → (search_places settings service query destination_id top_k
          ≡ found (asked service settings.search_sparse_enabled query destination_id top_k))
        × IsSearched settings top_k
            (search_places_with_diagnostics settings service query destination_id top_k)
  unfolding search_places_with_diagnostics
  search_places_with_diagnostics-IsSearched query destination_id top_k limited = (
    search_places-asked query destination_id top_k,
    if_ind (IsSearched settings top_k) _ (unavailable-IsSearched top_k) (
        search_vector-IsSearched (service.embed_text query) (service.encode_sparse query)
          destination_id top_k limited),
  )
