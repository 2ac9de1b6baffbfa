-- ===== src/Travel/Samples.antt =====
-- Places, preferences, distances and a routing service that the tests run on.
use agentic_guide_system.Prelude.{ℕ, suc, ◌+◌, ◌-◌, ◌*◌, none, some, Bool, List, [], ◌∷◌, ◌++◌}
use agentic_guide_system.Prelude.Int.{ℤ, pos, negsuc}
use agentic_guide_system.Travel.Places.{PlaceCandidate, TripPreferences, ScoredPlace}
use agentic_guide_system.Travel.Days.{Geometry}
use agentic_guide_system.Travel.Routing.{RouteLeg, RoutingProvider}

abbrev pub monastery : PlaceCandidate
monastery = record {
  id = 1;
  name = "Rumtek";
  category = "monastery";
  enriched_tags = "cultural" ∷ "monastery" ∷ [];
  lat = pos 10;
  lng = pos 20;
}

abbrev pub abbey : PlaceCandidate
abbey = record {
  id = 4;
  name = "Enchey";
  category = "monastery";
  enriched_tags = "cultural" ∷ [];
  lat = pos 11;
  lng = pos 21;
}

abbrev pub viewpoint : PlaceCandidate
viewpoint = record {
  id = 2;
  name = "Tashi";
  category = "viewpoint";
  enriched_tags = "photography" ∷ "viewpoint" ∷ [];
  lat = pos 12;
  lng = pos 20;
}

abbrev pub cafe : PlaceCandidate
cafe = record {
  id = 3;
  name = "Baker";
  category = "cafe";
  enriched_tags = [];
  lat = pos 30;
  lng = pos 40;
}

abbrev pub candidates : List PlaceCandidate
candidates = monastery ∷ abbey ∷ viewpoint ∷ cafe ∷ []

abbrev pub preferences : TripPreferences
preferences = record { interests = "cultural" ∷ "photography" ∷ []; budget = none; days = pos 2 }

abbrev pub scored : ℕ → PlaceCandidate → ScoredPlace
scored score place = record { place = place; score = score; score_breakdown = [] }

-- A day of three stops; its best order takes 120 minutes with the routing below.
abbrev pub stops : List ScoredPlace
stops = scored 10 monastery ∷ scored 14 viewpoint ∷ scored 0 cafe ∷ []

abbrev magnitude : ℤ → ℕ
magnitude (pos n) = n
magnitude (negsuc n) = suc n

abbrev first_point : List ScoredPlace → ℤ × ℤ
first_point [] = (pos 0, pos 0)
first_point (s ∷ rest) = (s.place.lat, s.place.lng)

-- A kilometre for each step of the latitude, and the first place as the centre.
abbrev pub geometry : Geometry
geometry = record {
  haversine_m = λ lat1 lng1 lat2 lng2.
      1000 * ((magnitude lat1 - magnitude lat2) + (magnitude lat2 - magnitude lat1));
  centroid = first_point;
}

abbrev leg : ℕ → ℕ → RouteLeg
leg from_id to_id = record {
  from_place_id = from_id;
  to_place_id = to_id;
  duration_min = 40 * ((from_id - to_id) + (to_id - from_id));
  distance_m = 1000;
  used_fallback = Bool.false;
}

abbrev legs_of : ℕ → List (ℕ × ℤ × ℤ) → List RouteLeg
legs_of from_id [] = []
legs_of from_id (point ∷ points) = leg from_id point.0 ∷ legs_of from_id points

abbrev legs_among : List (ℕ × ℤ × ℤ) → List (ℕ × ℤ × ℤ) → List RouteLeg
legs_among all [] = []
legs_among all (point ∷ points) = legs_of point.0 all ++ legs_among all points

-- Forty minutes for each step between the ids of two points.
abbrev pub routing : RoutingProvider
routing = record {
  travel_matrix = λ points. legs_among points points;
  route_polyline = λ points. some "line";
}
