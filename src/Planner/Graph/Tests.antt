-- ===== src/Planner/Graph/Tests.antt =====
-- A run in which the language model never answers.
use agentic_guide_system.Prelude.{
  ◌≡◌, refl, false, Option, some, str_eq, arith, if_ind, subst, some-eq-some,
}
use agentic_guide_system.Planner.Schemas.{discover, ToolResult}
use agentic_guide_system.Planner.State.{TravelState, default_settings}
use agentic_guide_system.Planner.Samples.{new_state, tool, world}
use agentic_guide_system.Planner.Orchestration.{is_unknown_tool}
use agentic_guide_system.Planner.Orchestration.Replanning.{IsWithinReplans}
use agentic_guide_system.Planner.Executor.Counting.{IsKnownTool}
use agentic_guide_system.Planner.Graph.{planner_loop, route_after_tools, is_agent}
use agentic_guide_system.Planner.Graph.Termination.{planner_loop-ends}
use agentic_guide_system.Planner.Graph.Replans.{planner_loop-IsWithinReplans}

abbrev IsKnown : Option ToolResult → Type 0
IsKnown answer = (r : ToolResult) → answer ≡ some r → is_unknown_tool r.code ≡ false

known_code :
    (a r : ToolResult)
    → some a ≡ some r
    → is_unknown_tool a.code ≡ false
    → is_unknown_tool r.code ≡ false
known_code a r e h =
    subst (λ (x : ToolResult). is_unknown_tool x.code ≡ false) (some-eq-some a r e) h

tool-IsKnownTool : IsKnownTool tool
unfolding IsKnownTool is_unknown_tool
tool-IsKnownTool name json st =
    if_ind IsKnown (str_eq name "finish_plan") (λ r e. known_code _ r e refl)
      (if_ind IsKnown (str_eq name "validate_itinerary") (λ r e. known_code _ r e refl)
        (if_ind IsKnown (str_eq name "ask_clarification") (λ r e. cc)
          (λ r e. known_code _ r e refl)))

within : IsWithinReplans default_settings (new_state discover)
unfolding IsWithinReplans
within = omega arith

planner_loop-ends_example :
    (final : TravelState) × (planner_loop world default_settings 195 0 (new_state discover)
      ≡ some final)
    × (is_agent (route_after_tools final) ≡ false)
planner_loop-ends_example =
    planner_loop-ends world default_settings (λ i. tool-IsKnownTool) (omega arith) 195 0
      (new_state discover) (omega arith) (omega arith)

planner_loop-IsWithinReplans_example :
    (final : TravelState) × (planner_loop world default_settings 195 0 (new_state discover)
      ≡ some final)
    × IsWithinReplans default_settings final
planner_loop-IsWithinReplans_example =
    planner_loop-IsWithinReplans world default_settings (λ i. tool-IsKnownTool) (omega arith) 195 0
      (new_state discover) (omega arith) (omega arith) within
