-- ===== src/Planner/Registry.antt =====
-- src/planner/tools/registry.py: the registered tools with the phases that admit them, the
-- precondition of `finish_plan`, and the dispatch of one call. The tool functions, which await the
-- database and other services, are the parameter `tool`: what it returns for the name and arguments
-- of the call in a state, or none where it raises.
pub mod Gate
pub mod Tests
use agentic_guide_system.Prelude.{
  String, Option, none, some, Bool, true, false, not, ◌&&◌, ◌||◌, List, any, str_eq, if◌then◌else◌,
  ℕ, ◌==◌,
}
use agentic_guide_system.Travel.Validator.{ValidationResult}
use agentic_guide_system.Planner.Schemas.{AgentPhase, phase_tools, ToolResult}
use agentic_guide_system.Planner.State.{TravelState, phase_from_raw}
use agentic_guide_system.Planner.Orchestration.{is_registered}

-- `phase in defn.allowed_phases`, where each tool is registered for one phase.
unfoldable pub is_allowed : String → Option AgentPhase → Bool
is_allowed name none = false
is_allowed name (some phase) = any (str_eq name) (phase_tools phase)

has_passed : Option ValidationResult → Bool
has_passed none = false
has_passed (some result) = result.passed

unfoldable pub finish_plan_ok : TravelState → Bool
unfolding has_passed
finish_plan_ok st = st.abort_triggered || (st.last_validate_ok || has_passed st.validation_result)

unfoldable pub check_preconditions : String → TravelState → Bool
unfolding is_registered is_allowed finish_plan_ok
check_preconditions name st =
    is_registered name
    && (is_allowed name (phase_from_raw st.agent_phase)
        && (not (str_eq name "finish_plan") || finish_plan_ok st))

abbrev pub soft_failure : String → ToolResult
soft_failure code = record { ok = false; code = some code; payload = none; fallback_used = false }

-- The tool function, and the answer for the exception that it raised.
unfoldable pub or_tool_error : Option ToolResult → ToolResult
or_tool_error none = soft_failure "tool_error"
or_tool_error (some result) = result

unfoldable pub execute_tool :
    (String → String → TravelState → Option ToolResult) → String → String → TravelState → ToolResult
unfolding is_registered check_preconditions or_tool_error
execute_tool tool name arguments_json st =
    if not (is_registered name)
    then soft_failure "unknown_tool"
    else if not (check_preconditions name st)
    then soft_failure "precondition_failed"
    else or_tool_error (tool name arguments_json st)
