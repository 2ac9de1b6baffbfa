-- ===== src/Search/PlacesIndex/Tests.antt =====
-- A search with two rankings, of an index of three points.
use agentic_guide_system.Prelude.{
  ℕ, zero, suc, ◌≤◌, ◌≡◌, refl, true, String, none, some, List, [], ◌∷◌, length, arith,
}
use agentic_guide_system.Prelude.Int.{pos}
use agentic_guide_system.Search.PlacesIndex.{
  Point, Query, Service, SearchSettings, SparseVector, hits_from_points, place_ids, search_places,
  search_places_with_diagnostics,
}
use agentic_guide_system.Search.PlacesIndex.Reports.{
  AtMost, IsSearched, found, asked, search_places_with_diagnostics-IsSearched,
}

abbrev point : String → Point
point id = record {
  place_id = some id;
  score = some (pos 16393);
  name = none;
  destination_id = none;
}

abbrev without_place : Point
without_place = record { place_id = none; score = none; name = none; destination_id = none }

abbrev points : List Point
points = point "p1" ∷ without_place ∷ point "p2" ∷ []

abbrev first : ℕ → List Point → List Point
first zero ps = []
first (suc n) [] = []
first (suc n) (p ∷ ps) = p ∷ first n ps

length-first : (n : ℕ) (ps : List Point) → length (first n ps) ≤ n
length-first zero ps = omega arith
length-first (suc n) [] = omega arith
length-first (suc n) (p ∷ ps) = omega (arith, length-first n ps)

abbrev encoded : SparseVector
encoded = record { indices = 7 ∷ []; values = 10 ∷ [] }

abbrev service : Service
service = record {
  is_qdrant_available = true;
  collection_uses_hybrid_schema = true;
  is_sparse_available = true;
  places_collection = "places_v2";
  embed_text = λ text. pos 1 ∷ [];
  encode_sparse = λ text. encoded;
  query_points = λ query destination_id limit. some (first limit points);
}

abbrev settings : SearchSettings
settings = record { search_fusion_diagnostics = true; search_sparse_enabled = true }

limited : (q : Query) (d limit : ℕ) → AtMost limit (service.query_points q d limit)
limited q d limit = length-first limit points

two_places : place_ids (search_places settings service "monastery" 1 3) ≡ "p1" ∷ "p2" ∷ []
unfolding search_places place_ids hits_from_points
two_places = refl

search_places_with_diagnostics-IsSearched_example :
    (search_places settings service "monastery" 1 3 ≡ found (asked service true "monastery" 1 3))
    × IsSearched settings 3 (search_places_with_diagnostics settings service "monastery" 1 3)
search_places_with_diagnostics-IsSearched_example =
    search_places_with_diagnostics-IsSearched settings service "monastery" 1 3 limited
