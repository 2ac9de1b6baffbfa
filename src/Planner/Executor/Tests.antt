-- ===== src/Planner/Executor/Tests.antt =====
-- A batch with a call that runs, one that is unknown and one that is refused.
use agentic_guide_system.Prelude.{◌≡◌, [], ◌∷◌}
use agentic_guide_system.Planner.Schemas.{plan}
use agentic_guide_system.Planner.State.{TravelState, default_settings}
use agentic_guide_system.Planner.Samples.{new_state, tool, ms, render, call}
use agentic_guide_system.Planner.Orchestration.Traces.{traced}
use agentic_guide_system.Planner.Executor.{tool_executor_node}
use agentic_guide_system.Planner.Executor.Tracing.{tool_executor_node-traces}

abbrev waiting : TravelState
waiting = record (new_state plan) {
  pending_tool_calls = call "build_schedule" ∷ call "book_hotel" ∷ call "finish_plan" ∷ [];
}

tool_executor_node-traces_example :
    (traced (tool_executor_node tool ms render default_settings waiting).0
      ≡ "build_schedule" ∷ "book_hotel" ∷ "finish_plan" ∷ [])
    × ((tool_executor_node tool ms render default_settings waiting).0.pending_tool_calls ≡ [])
tool_executor_node-traces_example =
    tool_executor_node-traces tool ms render default_settings waiting
