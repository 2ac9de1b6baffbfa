-- ===== src/Planner/Orchestration.antt =====
-- src/planner/tools/orchestration.py: the writer of the planning state, the transition table, and the
-- stuck detector.
pub mod Quiet
pub mod Steps
pub mod Edges
pub mod Replanning
pub mod Traces
pub mod Tests
use agentic_guide_system.Prelude.{
  ℕ, zero, suc, ◌+◌, ◌/◌, ◌%◌, String, Option, none, some, Bool, true, false, not, ◌&&◌, ◌||◌, List,
  [], ◌∷◌, ◌++◌, map, any, length, take, is_empty, ltb, leb, str_eq, if◌then◌else◌,
}
use Prim.Native.String.{compare}
use agentic_guide_system.Prelude.Order.{codes, compare_codes}
use agentic_guide_system.Travel.Validator.{ValidationError, ValidationResult}
use agentic_guide_system.Planner.Schemas.{
  AgentPhase, discover, plan, validate, replan, wrap_up, phase_value, ToolResult, ToolTraceEntry,
  ScheduleDay, Entry,
}
use agentic_guide_system.Planner.State.{Settings, TravelState, enum, phase_from_raw}

-- The twelve names of TOOL_REGISTRY.
abbrev pub tool_names : List String
tool_names =
    "check_readiness" ∷ "search_places" ∷ "rank_places" ∷ "ask_clarification" ∷ "build_route"
    ∷ "build_schedule" ∷ "validate_itinerary" ∷ "reoptimize_routes" ∷ "drop_weakest_stop"
    ∷ "expand_poi_search" ∷ "accept_partial" ∷ "finish_plan" ∷ []

-- name in TOOL_REGISTRY
unfoldable pub is_registered : String → Bool
is_registered name = any (str_eq name) tool_names

-- One key of the result's data: `warnings` and `errors` are appended, the keys of `_MERGE_KEYS` are
-- written, all others are passed over.
unfoldable pub merge_entry : TravelState → Entry → TravelState
merge_entry st (Entry.candidate_pois v) = record st { candidate_pois = v }
merge_entry st (Entry.ranked_pois v) = record st { ranked_pois = v }
merge_entry st (Entry.route v) = record st { route = v }
merge_entry st (Entry.schedule v) = record st { schedule = v }
merge_entry st (Entry.validation_result v) = record st { validation_result = some v }
merge_entry st (Entry.last_validate_ok v) = record st { last_validate_ok = v }
merge_entry st (Entry.readiness_score v) = record st { readiness_score = some v }
merge_entry st (Entry.used_geo_fallback v) = record st { used_geo_fallback = v }
merge_entry st (Entry.used_osrm_fallback v) = record st { used_osrm_fallback = v }
merge_entry st (Entry.abort_triggered v) = record st { abort_triggered = v }
merge_entry st (Entry.plan_complete v) = record st { plan_complete = v }
merge_entry st (Entry.needs_clarification v) = record st { needs_clarification = v }
merge_entry st (Entry.clarification_question v) = record st { clarification_question = some v }
merge_entry st (Entry.itinerary v) = record st { itinerary = some v }
merge_entry st (Entry.search_top_k v) = record st { search_top_k = some v }
merge_entry st (Entry.warnings v) = record st { warnings = st.warnings ++ v }
merge_entry st (Entry.errors v) = record st { errors = st.errors ++ v }
merge_entry st (Entry.fusion_diagnostics v) = st
merge_entry st (Entry.other key) = st

unfoldable pub merge_entries : TravelState → List Entry → TravelState
unfolding merge_entry
merge_entries st [] = st
merge_entries st (e ∷ es) = merge_entries (merge_entry st e) es

abbrev pub entries_of : Option (List Entry) → List Entry
entries_of none = []
entries_of (some es) = es

-- data.get("fusion_diagnostics")
diagnostics_of : List Entry → Option String
diagnostics_of [] = none
diagnostics_of (Entry.fusion_diagnostics v ∷ es) = some v
diagnostics_of (e ∷ es) = diagnostics_of es

abbrev pub phase_or_discover : Option AgentPhase → AgentPhase
phase_or_discover none = discover
phase_or_discover (some phase) = phase

abbrev pub phase_of : TravelState → AgentPhase
phase_of st = phase_or_discover (phase_from_raw st.agent_phase)

unfoldable pub is_unknown_tool : Option String → Bool
is_unknown_tool none = false
is_unknown_tool (some code) = str_eq code "unknown_tool"

unfoldable pub apply_tool_result : TravelState → String → ToolResult → ℕ → TravelState
unfolding is_registered is_unknown_tool diagnostics_of merge_entries
apply_tool_result st name result duration_ms =
    let counted =
      if is_registered name && not (is_unknown_tool result.code)
      then record st { tool_loop_count = st.tool_loop_count + 1 }
      else st in
    let merged = merge_entries counted (entries_of result.payload) in
    record merged {
      tool_trace =
          merged.tool_trace
          ++ record {
            name = name;
            ok = result.ok;
            ms = duration_ms;
            phase = phase_of merged;
            code = result.code;
            fallback_used = result.fallback_used;
            diagnostics = diagnostics_of (entries_of result.payload);
          }
            ∷ [];
    }

abbrev pub set_phase : TravelState → AgentPhase → TravelState
set_phase st phase = record st { agent_phase = enum phase }

abbrev pub abort : TravelState → TravelState
abort st = record st { agent_phase = enum wrap_up; abort_triggered = true }

abbrev pub max_replan : Settings → TravelState → ℕ
max_replan settings st = elim st.max_replan_attempts [
  | none ↦ settings.planner_max_replan_attempts
  | some n ↦ n
]

abbrev is_replan_tool : String → Bool
is_replan_tool name =
    str_eq name "reoptimize_routes"
    || str_eq name "drop_weakest_stop"
    || str_eq name "expand_poi_search"
    || str_eq name "accept_partial"

-- The branches of the transition table, by phase.
transition : Settings → AgentPhase → TravelState → String → Bool → TravelState
transition settings discover st tool ok =
    if str_eq tool "rank_places" && ok
    then set_phase st plan
    else if str_eq tool "ask_clarification" && ok
    then record st { needs_clarification = true }
    else st
transition settings plan st tool ok =
    if str_eq tool "build_schedule" && ok then set_phase st validate else st
transition settings validate st tool ok =
    if not (str_eq tool "validate_itinerary")
    then st
    else if ok
    then set_phase st wrap_up
    else if ltb st.replan_loop_count (max_replan settings st)
    then record st { agent_phase = enum replan; replan_loop_count = st.replan_loop_count + 1 }
    else abort st
transition settings replan st tool ok =
    if str_eq tool "accept_partial" && ok
    then set_phase st wrap_up
    else if leb (max_replan settings st) st.replan_loop_count
    then abort st
    else if is_replan_tool tool && (not (str_eq tool "accept_partial") && ok)
    then set_phase st plan
    else st
transition settings wrap_up st tool ok = st

pub transition_from : Settings → Option AgentPhase → TravelState → String → Bool → TravelState
unfolding transition
transition_from settings none st tool ok = st
transition_from settings (some phase) st tool ok = transition settings phase st tool ok

unfoldable pub maybe_transition_phase : Settings → TravelState → String → ToolResult → TravelState
unfolding transition_from
maybe_transition_phase settings st tool_name result =
    if leb settings.planner_max_tool_calls st.tool_loop_count
    then abort st
    else transition_from settings (phase_from_raw st.agent_phase) st tool_name result.ok
