-- ===== src/Planner/Samples.antt =====
-- A new planning state, a tool service and a run that the tests use.
use agentic_guide_system.Prelude.{
  ℕ, String, Option, none, some, true, false, List, [], ◌∷◌, str_eq, if◌then◌else◌,
}
use agentic_guide_system.Travel.Samples.{monastery}
use agentic_guide_system.Travel.Validator.{ValidationError}
use agentic_guide_system.Planner.Schemas.{
  AgentPhase, PendingToolCall, ToolResult, ScheduleDay, Entry,
}
use agentic_guide_system.Planner.State.{TravelState, enum}
use agentic_guide_system.Planner.Agent.{Model}
use agentic_guide_system.Planner.Graph.{World}

abbrev pub new_state : AgentPhase → TravelState
new_state phase = record {
  agent_phase = enum phase;
  tool_loop_count = 0;
  pending_tool_calls = [];
  tool_trace = [];
  plan_complete = false;
  needs_clarification = false;
  clarification_question = none;
  replan_loop_count = 0;
  max_replan_attempts = some 2;
  abort_triggered = false;
  llm_retry_count = 0;
  used_geo_fallback = false;
  used_osrm_fallback = false;
  readiness_score = none;
  interests = [];
  budget = none;
  include_offbeat = none;
  include_trekking = none;
  days = 0;
  search_top_k = none;
  candidate_pois = [];
  ranked_pois = [];
  route = [];
  schedule = [];
  itinerary = none;
  validation_result = none;
  last_validate_ok = false;
  errors = [];
  warnings = [];
  stuck_fingerprint = none;
  stuck_cycles = 0;
}

abbrev pub one_day : List ScheduleDay
one_day =
    record {
      day = 1;
      stops =
          record {
            place = monastery;
            order = 1;
            travel_time_min = 30;
            visit_duration_min = 45;
            suggested_start_time = [];
            arrival_note = none;
            leg_polyline = none;
            score = 10;
          }
          ∷ [];
      total_distance_m = 1000;
      total_travel_min = 30;
      day_polyline = none;
    }
    ∷ []

abbrev success : List Entry → Option ToolResult
success entries =
    some (record { ok = true; code = none; payload = some entries; fallback_used = false })

-- finish_plan completes the plan, validate_itinerary fails, and the other tools succeed.
abbrev pub tool : String → String → TravelState → Option ToolResult
tool name json st =
    if str_eq name "finish_plan"
    then success (Entry.plan_complete true ∷ [])
    else if str_eq name "validate_itinerary"
    then some (record {
      ok = false;
      code = some "validation_failed";
      payload = none;
      fallback_used = false;
    })
    else if str_eq name "ask_clarification"
    then none
    else success (Entry.schedule one_day ∷ [])

abbrev pub ms : String → TravelState → ℕ
ms name st = 5

abbrev pub call : String → PendingToolCall
call name = record { name = name; arguments_json = "" }

abbrev pub render : ValidationError → List ℕ
render e = []

-- The language model raises on every request.
abbrev pub silent_model : Model
silent_model = record { first = none; second = none }

abbrev pub world : World
world = record { model = λ i st. silent_model; tool = λ i. tool; ms = λ i. ms; render = render }
