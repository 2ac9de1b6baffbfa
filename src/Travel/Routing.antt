-- ===== src/Travel/Routing.antt =====
-- src/travel_engine/protocols.py: route legs and the injected routing service. Minutes of travel are
-- natural numbers: a routing service answers no negative duration.
use mathlib.Core.List.{foldl}
use agentic_guide_system.Prelude.{ℕ, String, Option, Bool, List, []}
use agentic_guide_system.Prelude.Dict.{Dict, put, pair_eq}
use agentic_guide_system.Prelude.Int.{ℤ}

pub record RouteLeg : Type 0 where
  pub from_place_id : ℕ
  pub to_place_id : ℕ
  pub duration_min : ℕ
  pub distance_m : ℕ
  pub used_fallback : Bool

-- The adapters never raise; a polyline is `none` when it is unavailable.
pub record RoutingProvider : Type 0 where
  pub travel_matrix : List (ℕ × ℤ × ℤ) → List RouteLeg
  pub route_polyline : List (ℤ × ℤ) → Option String

-- The last leg of a pair wins.
unfoldable pub legs_to_lookup : List RouteLeg → Dict (ℕ × ℕ) RouteLeg
unfolding put
legs_to_lookup legs =
    foldl (λ lookup leg. put lookup (leg.from_place_id, leg.to_place_id) leg) [] legs
