-- ===== src/Planner/Schemas.antt =====
-- src/planner/tools/schemas.py: the phases, the tools of each phase, calls and results.
use agentic_guide_system.Prelude.{ℕ, String, Option, Bool, List, [], ◌∷◌}
use agentic_guide_system.Travel.Places.{PlaceCandidate, ScoredPlace}
use agentic_guide_system.Travel.Routing.{RouteLeg}
use agentic_guide_system.Travel.Route.{DroppedStop}
use agentic_guide_system.Travel.Validator.{ValidationError, ValidationResult}

pub data AgentPhase : Type 0 where
  discover plan validate replan wrap_up : AgentPhase

pub AgentPhase-discrete : Discrete AgentPhase
AgentPhase-discrete = hlevel

-- The `value` of the enum.
abbrev pub phase_value : AgentPhase → String
phase_value discover = "discover"
phase_value plan = "plan"
phase_value validate = "validate"
phase_value replan = "replan"
phase_value wrap_up = "wrap_up"

abbrev pub phase_tools : AgentPhase → List String
phase_tools discover =
    "check_readiness" ∷ "search_places" ∷ "rank_places" ∷ "ask_clarification" ∷ []
phase_tools plan = "build_route" ∷ "build_schedule" ∷ []
phase_tools validate = "validate_itinerary" ∷ []
phase_tools replan =
    "reoptimize_routes" ∷ "drop_weakest_stop" ∷ "expand_poi_search" ∷ "accept_partial" ∷ []
phase_tools wrap_up = "finish_plan" ∷ []

abbrev pub default_tool_by_phase : AgentPhase → String
default_tool_by_phase discover = "check_readiness"
default_tool_by_phase plan = "build_route"
default_tool_by_phase validate = "validate_itinerary"
default_tool_by_phase replan = "reoptimize_routes"
default_tool_by_phase wrap_up = "finish_plan"

pub record PendingToolCall : Type 0 where
  pub name : String
  pub arguments_json : String

pub record ToolTraceEntry : Type 0 where
  pub name : String
  pub ok : Bool
  pub ms : ℕ
  pub phase : AgentPhase
  pub code : Option String
  pub fallback_used : Bool
  pub diagnostics : Option String

-- One day of `route`, as `build_route` writes it.
pub record RouteDay : Type 0 where
  pub ordered : List ScoredPlace
  pub legs : List RouteLeg
  pub total_travel_min : ℕ
  pub dropped_stops : List DroppedStop
  pub still_over_budget : Bool
  pub leg_polylines : List (Option String)
  pub day_polyline : Option String

-- One stop and one day of `schedule`, as `build_schedule` writes them.
pub record FlatStop : Type 0 where
  pub place : PlaceCandidate
  pub order : ℕ
  pub travel_time_min : ℕ
  pub visit_duration_min : ℕ
  pub suggested_start_time : List ℕ
  pub arrival_note : Option String
  pub leg_polyline : Option String
  pub score : ℕ

pub record ScheduleDay : Type 0 where
  pub day : ℕ
  pub stops : List FlatStop
  pub total_distance_m : ℕ
  pub total_travel_min : ℕ
  pub day_polyline : Option String

pub record Itinerary : Type 0 where
  pub schedule : List ScheduleDay
  pub route : List RouteDay
  pub days : ℕ

-- One item of the dict `ToolResult.data`. `other` is a key that nothing in the planner reads again.
pub data Entry : Type 0 where
  candidate_pois : List PlaceCandidate → Entry
  ranked_pois : List ScoredPlace → Entry
  route : List RouteDay → Entry
  schedule : List ScheduleDay → Entry
  validation_result : ValidationResult → Entry
  last_validate_ok : Bool → Entry
  readiness_score : ℕ → Entry
  used_geo_fallback : Bool → Entry
  used_osrm_fallback : Bool → Entry
  abort_triggered : Bool → Entry
  plan_complete : Bool → Entry
  needs_clarification : Bool → Entry
  clarification_question : String → Entry
  itinerary : Itinerary → Entry
  search_top_k : ℕ → Entry
  warnings : List String → Entry
  errors : List ValidationError → Entry
  fusion_diagnostics : String → Entry
  other : String → Entry

pub record ToolResult : Type 0 where
  pub ok : Bool
  pub code : Option String
  pub payload : Option (List Entry)
  pub fallback_used : Bool
