-- ===== src/Trips/Samples.antt =====
-- A trip with two days, and the tables around it, that the tests run on.
use agentic_guide_system.Prelude.{
  ℕ, String, none, some, false, List, [], ◌∷◌, ◌++◌, map, ◌==◌, if◌then◌else◌,
}
use agentic_guide_system.Prelude.Int.{pos}
use agentic_guide_system.Prelude.Order.{codes}
use agentic_guide_system.Travel.Routing.{RouteLeg, RoutingProvider}
use agentic_guide_system.Travel.Schedule.{ScheduledStop}
use agentic_guide_system.Trips.{Place, TripPlace, Trip, TripStatus, Store, null}
use agentic_guide_system.Trips.Repository.{Session}

abbrev place : ℕ → String → Place
place id category = record {
  id = id;
  destination_id = 9;
  name = category;
  category = category;
  enriched_tags = some [];
  lat = pos id;
  lng = pos 0;
  is_deleted = false;
}

abbrev stop : ℕ → ℕ → ℕ → ℕ → List ℕ → TripPlace
stop id place_id day order start = record {
  id = id;
  trip_id = 50;
  row = record {
    place_id = place_id;
    day_number = day;
    order_in_day = order;
    travel_time_min = 20;
    visit_duration_min = 60;
    suggested_start_time = some start;
    arrival_note = none;
    polyline = none;
  };
}

-- Every hop takes 20 minutes.
abbrev legs_to : ℕ → List (ℕ × ℕ) → List RouteLeg
legs_to from_id [] = []
legs_to from_id ((to_id, n) ∷ rest) =
    let more = legs_to from_id rest in
    if from_id == to_id
    then more
    else record {
      from_place_id = from_id;
      to_place_id = to_id;
      duration_min = 20;
      distance_m = 1000;
      used_fallback = false;
    }
      ∷ more

abbrev all_legs : List (ℕ × ℕ) → List (ℕ × ℕ) → List RouteLeg
all_legs points [] = []
all_legs points ((from_id, n) ∷ rest) = legs_to from_id points ++ all_legs points rest

abbrev pub steady : RoutingProvider
steady = record {
  travel_matrix = λ points. let ids = map (λ p. (p.0, 0)) points in all_legs ids ids;
  route_polyline = λ points. some "p";
}

-- All stops of a day lie close together.
abbrev pub close_by : List ScheduledStop → ℕ
close_by stops = 1000

abbrev pub trip : Trip
trip = record {
  id = 50;
  user_id = some 7;
  session_id = "s1";
  destination_id = 9;
  days = 2;
  preferences = record {
    interests = [];
    budget = none;
    include_offbeat = none;
    include_trekking = none;
    base_lat = null;
    base_lng = null;
  };
  status = TripStatus.complete;
  is_deleted = false;
}

abbrev pub store : Store
store = record {
  trips = trip ∷ record trip { id = 51; user_id = none; session_id = "s2" } ∷ [];
  trip_places =
      stop 60 1 1 1 (codes "08:20")
      ∷ stop 61 2 1 2 (codes "10:40")
      ∷ stop 62 3 2 1 (codes "08:20")
      ∷ [];
  places = place 1 "museum" ∷ place 2 "cafe" ∷ place 3 "museum" ∷ place 4 "cafe" ∷ [];
  destinations = record { id = 9; lat = pos 1; lng = pos 1 } ∷ [];
  trip_edit_events = [];
  trip_evaluations = record { id = 80; trip_id = some 50; user_edited = false } ∷ [];
  next_id = 100;
}

abbrev pub session : Session
session = record { committed = store; current = store }
