-- ===== src/Planner/Registry/Tests.antt =====
-- A call that the phase admits, and one that it does not.
use agentic_guide_system.Prelude.{◌≡◌, refl, ◌⊎◌}
use agentic_guide_system.Planner.Schemas.{discover, plan}
use agentic_guide_system.Planner.State.{phase_from_raw}
use agentic_guide_system.Planner.Samples.{new_state, tool}
use agentic_guide_system.Planner.Orchestration.{is_registered}
use agentic_guide_system.Planner.Registry.{execute_tool, is_allowed, soft_failure}
use agentic_guide_system.Planner.Registry.Gate.{Ran, Refused, execute_tool-gated}

execute_tool_out_of_phase :
    execute_tool tool "build_route" "{}" (new_state discover) ≡ soft_failure "precondition_failed"
unfolding execute_tool is_registered is_allowed phase_from_raw
execute_tool_out_of_phase = refl

execute_tool-gated_example :
    Ran tool "build_route" "{}" (new_state plan) ⊎ Refused tool "build_route" "{}" (new_state plan)
execute_tool-gated_example = execute_tool-gated tool "build_route" "{}" (new_state plan)
