-- ===== src/Planner/Executor.antt =====
-- src/planner/graph/nodes/tool_executor.py: the node that runs the pending calls in order, each by
-- execute_tool, apply_tool_result and maybe_transition_phase, and then the stuck detector. The events
-- that it emits are a list, in order; the snapshots of the state that they carry are left out. The
-- time that a call takes is the parameter `ms`.
pub mod Counting
pub mod Tracing
pub mod Tests
use agentic_guide_system.Prelude.{
  ℕ, String, Option, none, some, Bool, true, false, not, List, [], ◌∷◌, ◌++◌, str_eq, if◌then◌else◌,
}
use agentic_guide_system.Travel.Validator.{ValidationError}
use agentic_guide_system.Planner.Schemas.{phase_value, PendingToolCall, ToolResult}
use agentic_guide_system.Planner.State.{Settings, RawPhase, missing, text, enum, TravelState}
use agentic_guide_system.Planner.Orchestration.{apply_tool_result, maybe_transition_phase}
use agentic_guide_system.Planner.Registry.{execute_tool}
use agentic_guide_system.Planner.Stuck.{run_stuck_detector}

pub data Event : Type 0 where
  phase_changed : RawPhase → Event
  tool_done : String → Bool → Option String → ℕ → Event
  tool_batch_done : Event

-- The phases are a `str` enum, so a member equals its text.
abbrev phase_text : RawPhase → Option String
phase_text missing = none
phase_text (text value) = some value
phase_text (enum phase) = some (phase_value phase)

same_option : Option String → Option String → Bool
same_option none none = true
same_option none (some b) = false
same_option (some a) none = false
same_option (some a) (some b) = str_eq a b

-- The event of a changed phase, where it changed.
unfoldable pub phase_events : RawPhase → RawPhase → List Event
unfolding same_option
phase_events last now =
    if same_option (phase_text now) (phase_text last) then [] else phase_changed now ∷ []

-- `call.get("arguments_json") or "{}"`
abbrev pub or_empty_object : String → String
or_empty_object json = if str_eq json "" then "{}" else json

-- What the loop over the calls carries.
pub record Batch : Type 0 where
  pub working : TravelState
  pub last_phase : RawPhase
  pub emitted : List Event

module _ (tool : String → String → TravelState → Option ToolResult) (ms : String → TravelState → ℕ)
    (settings : Settings) where
  -- The state after one call.
  unfoldable pub run_call : TravelState → PendingToolCall → TravelState
  unfolding execute_tool apply_tool_result maybe_transition_phase
  run_call working call =
      let result = execute_tool tool call.name (or_empty_object call.arguments_json) working in
      maybe_transition_phase settings
        (apply_tool_result working call.name result (ms call.name working)) call.name result

  -- One turn of the loop.
  unfoldable pub run_pending : Batch → PendingToolCall → Batch
  unfolding run_call execute_tool phase_events
  run_pending b call =
      let result = execute_tool tool call.name (or_empty_object call.arguments_json) b.working in
      let after = run_call b.working call in
      record {
        working = after;
        last_phase = after.agent_phase;
        emitted =
            b.emitted
            ++ phase_events b.last_phase after.agent_phase
            ++ tool_done call.name result.ok result.code (ms call.name b.working) ∷ [];
      }

  unfoldable pub run_all : Batch → List PendingToolCall → Batch
  unfolding run_pending
  run_all b [] = b
  run_all b (call ∷ calls) = run_all (run_pending b call) calls

unfoldable pub tool_executor_node :
    (String → String → TravelState → Option ToolResult)
    → (String → TravelState → ℕ)
    → (ValidationError → List ℕ)
    → Settings
    → TravelState
    → TravelState × List Event
unfolding run_all run_stuck_detector phase_events
tool_executor_node tool ms render settings st =
    let done =
      run_all tool ms settings (record { working = st; last_phase = st.agent_phase; emitted = [] })
        st.pending_tool_calls in
    let settled =
      run_stuck_detector render settings (record done.working { pending_tool_calls = [] }) in
    (
      settled,
      done.emitted ++ phase_events done.last_phase settled.agent_phase ++ tool_batch_done ∷ [],
    )
