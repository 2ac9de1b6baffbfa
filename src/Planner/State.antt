-- ===== src/Planner/State.antt =====
-- src/planner/graph/state.py: the state of the planner graph, with the types that it declares, and
-- the settings that bound a run (src/config.py).
use agentic_guide_system.Prelude.{ℕ, String, Option, none, some, Bool, List, str_eq, if◌then◌else◌}
use agentic_guide_system.Travel.Places.{PlaceCandidate, ScoredPlace}
use agentic_guide_system.Travel.Validator.{ValidationError, ValidationResult}
use agentic_guide_system.Planner.Schemas.{
  AgentPhase, discover, plan, validate, replan, wrap_up, PendingToolCall, ToolTraceEntry, RouteDay,
  ScheduleDay, Itinerary,
}

pub record Settings : Type 0 where
  pub planner_max_tool_calls : ℕ
  pub planner_max_replan_attempts : ℕ
  pub planner_agent_phase_stuck_limit : ℕ

abbrev pub default_settings : Settings
default_settings = record {
  planner_max_tool_calls = 12;
  planner_max_replan_attempts = 2;
  planner_agent_phase_stuck_limit = 3;
}

-- What stands under `agent_phase`: nothing, a text, or a member of the enum.
pub data RawPhase : Type 0 where
  missing : RawPhase
  text : String → RawPhase
  enum : AgentPhase → RawPhase

-- The keys that the model reads or writes; an absent one is none, empty, zero or false. The last two
-- keys that the results of tools carry and the class does not declare, last_validate_ok and
-- search_top_k, are kept as the others are.
pub record TravelState : Type 0 where
  pub agent_phase : RawPhase
  pub tool_loop_count : ℕ
  pub pending_tool_calls : List PendingToolCall
  pub tool_trace : List ToolTraceEntry
  pub plan_complete : Bool
  pub needs_clarification : Bool
  pub clarification_question : Option String
  pub replan_loop_count : ℕ
  pub max_replan_attempts : Option ℕ
  pub abort_triggered : Bool
  pub llm_retry_count : ℕ
  pub used_geo_fallback : Bool
  pub used_osrm_fallback : Bool
  pub readiness_score : Option ℕ
  pub interests : List String
  pub budget : Option String
  pub include_offbeat : Option Bool
  pub include_trekking : Option Bool
  pub days : ℕ
  pub search_top_k : Option ℕ
  pub candidate_pois : List PlaceCandidate
  pub ranked_pois : List ScoredPlace
  pub route : List RouteDay
  pub schedule : List ScheduleDay
  pub itinerary : Option Itinerary
  pub validation_result : Option ValidationResult
  pub last_validate_ok : Bool
  pub errors : List ValidationError
  pub warnings : List String
  pub stuck_fingerprint : Option (List ℕ)
  pub stuck_cycles : ℕ

-- `AgentPhase(str(raw))`
unfoldable pub parse_phase : String → Option AgentPhase
parse_phase value =
    if str_eq value "discover"
    then some discover
    else if str_eq value "plan"
    then some plan
    else if str_eq value "validate"
    then some validate
    else if str_eq value "replan"
    then some replan
    else if str_eq value "wrap_up"
    then some wrap_up
    else none

-- `_phase_from_state`
unfoldable pub phase_from_raw : RawPhase → Option AgentPhase
unfolding parse_phase
phase_from_raw missing = none
phase_from_raw (text value) = parse_phase value
phase_from_raw (enum phase) = some phase
