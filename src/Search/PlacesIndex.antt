-- ===== src/Search/PlacesIndex.antt =====
-- src/search/places_index.py: the search for the places of a destination, with its report on the
-- fusion of two rankings. The answers of the index, of the embedding model and of the sparse encoder
-- are parameters. A score is a number of millionths.
pub mod Reports
pub mod Tests
use agentic_guide_system.Prelude.{
  ℕ, String, Option, none, some, Bool, true, false, not, ◌&&◌, ◌||◌, ◌*◌, List, [], ◌∷◌, map,
  is_empty, str_eq, if◌then◌else◌,
}
use agentic_guide_system.Prelude.Int.{ℤ, pos}

-- A point that the index answers, with the keys of its payload.
pub record Point : Type 0 where
  pub place_id : Option String
  pub score : Option ℤ
  pub name : Option String
  pub destination_id : Option String

pub record PlaceSearchResult : Type 0 where
  pub place_id : String
  pub score : ℤ
  pub name : Option String
  pub destination_id : Option String

-- The dict of `_base_diagnostics`.
pub record Diagnostics : Type 0 where
  pub mode : String
  pub collection : String
  pub sparse_enabled : Bool
  pub fused_place_ids : List String
  pub dense_place_ids : List String
  pub sparse_place_ids : List String
  pub top_k : ℕ

pub record PlaceSearchOutcome : Type 0 where
  pub hits : List PlaceSearchResult
  pub diagnostics : Option Diagnostics

pub record SearchSettings : Type 0 where
  pub search_fusion_diagnostics : Bool
  pub search_sparse_enabled : Bool

-- The coordinates of a vector, and the indices and values of a sparse one.
abbrev pub Vector : Type 0
Vector = List ℤ

pub record SparseVector : Type 0 where
  pub indices : List ℕ
  pub values : List ℕ

-- A call of `query_points` for one destination: one ranking, by a named vector or the only one there
-- is, or the fusion of two rankings, each of twice as many points.
pub data Query : Type 0 where
  by_dense : Vector → Option String → Query
  by_sparse : SparseVector → Query
  by_fusion : Vector → SparseVector → ℕ → Query

-- What the search asks: is the index there, does its collection name its vectors, is the encoder
-- there, the embedding of a text (empty where it fails), its encoding, and the points for a query, a
-- destination and a limit, where `none` is an exception or a timeout.
pub record Service : Type 0 where
  pub is_qdrant_available : Bool
  pub collection_uses_hybrid_schema : Bool
  pub is_sparse_available : Bool
  pub places_collection : String
  pub embed_text : String → Vector
  pub encode_sparse : String → SparseVector
  pub query_points : Query → ℕ → ℕ → Option (List Point)

abbrev score_or_zero : Option ℤ → ℤ
score_or_zero none = pos 0
score_or_zero (some score) = score

unfoldable pub hit_or_skip : Option String → Point → List PlaceSearchResult → List PlaceSearchResult
hit_or_skip none point rest = rest
hit_or_skip (some place_id) point rest =
    if str_eq place_id ""
    then rest
    else record {
      place_id = place_id;
      score = score_or_zero point.score;
      name = point.name;
      destination_id = point.destination_id;
    }
      ∷ rest

unfoldable pub hits_from_points : List Point → List PlaceSearchResult
unfolding hit_or_skip
hits_from_points [] = []
hits_from_points (point ∷ points) = hit_or_skip point.place_id point (hits_from_points points)

unfoldable pub place_ids : List PlaceSearchResult → List String
place_ids hits = map (λ h. h.place_id) hits

-- The ids of a subquery that fails softly.
unfoldable pub ids_or_none : Option (List Point) → List String
unfolding place_ids hits_from_points
ids_or_none none = []
ids_or_none (some points) = place_ids (hits_from_points points)

module _ (settings : SearchSettings) (service : Service) where
  -- The report, where it is wanted.
  unfoldable pub report :
      String → Bool → ℕ → List String → List String → List String → Option Diagnostics
  report mode sparse_enabled top_k fused dense sparse =
      if settings.search_fusion_diagnostics
      then some (record {
        mode = mode;
        collection = service.places_collection;
        sparse_enabled = sparse_enabled;
        fused_place_ids = fused;
        dense_place_ids = dense;
        sparse_place_ids = sparse;
        top_k = top_k;
      })
      else none

  unfoldable pub unavailable : ℕ → PlaceSearchOutcome
  unfolding report
  unavailable top_k = record {
    hits = [];
    diagnostics = report "unavailable" settings.search_sparse_enabled top_k [] [] [];
  }

  -- `_query_place_ids_fail_soft`
  unfoldable pub query_place_ids_fail_soft : Query → ℕ → ℕ → List String
  unfolding ids_or_none
  query_place_ids_fail_soft query destination_id limit =
      ids_or_none (service.query_points query destination_id limit)

  -- The search with two rankings, after its query.
  unfoldable pub after_fusion :
      Vector → SparseVector → ℕ → ℕ → Option (List Point) → PlaceSearchOutcome
  unfolding unavailable report query_place_ids_fail_soft
  after_fusion vector sparse destination_id top_k none = unavailable top_k
  after_fusion vector sparse destination_id top_k (some points) =
      let hits = hits_from_points points in
      record {
        hits = hits;
        diagnostics =
            report "hybrid_rrf" true top_k (place_ids hits)
              (query_place_ids_fail_soft (by_dense vector (some "dense")) destination_id top_k)
              (query_place_ids_fail_soft (by_sparse sparse) destination_id top_k);
      }

  -- The search with one ranking, after its query.
  unfoldable pub after_dense : ℕ → Option (List Point) → PlaceSearchOutcome
  unfolding unavailable report
  after_dense top_k none = unavailable top_k
  after_dense top_k (some points) =
      let hits = hits_from_points points in
      record {
        hits = hits;
        diagnostics =
            report "dense_only" settings.search_sparse_enabled top_k (place_ids hits)
              (place_ids hits) [];
      }

  -- The search once the query has a vector; `sparse` is `sparse_q`.
  unfoldable pub search_dense : Vector → ℕ → ℕ → PlaceSearchOutcome
  unfolding after_dense
  search_dense vector destination_id top_k =
      let using = if service.collection_uses_hybrid_schema then some "dense" else none in
      after_dense top_k (service.query_points (by_dense vector using) destination_id top_k)

  unfoldable pub search_vector : Vector → SparseVector → ℕ → ℕ → PlaceSearchOutcome
  unfolding after_fusion search_dense
  search_vector vector sparse destination_id top_k =
      let use_rrf =
        service.collection_uses_hybrid_schema && settings.search_sparse_enabled
        && service.is_sparse_available in
      if use_rrf && not (is_empty sparse.indices)
      then after_fusion vector sparse destination_id top_k
          (service.query_points (by_fusion vector sparse (top_k * 2)) destination_id top_k)
      else search_dense vector destination_id top_k

  unfoldable pub search_places_with_diagnostics : String → ℕ → ℕ → PlaceSearchOutcome
  unfolding unavailable search_vector
  search_places_with_diagnostics query destination_id top_k =
      let vector = service.embed_text query in
      if not service.is_qdrant_available || is_empty vector
      then unavailable top_k
      else search_vector vector (service.encode_sparse query) destination_id top_k

  unfoldable pub search_places : String → ℕ → ℕ → List PlaceSearchResult
  unfolding search_places_with_diagnostics
  search_places query destination_id top_k =
      (search_places_with_diagnostics query destination_id top_k).hits
