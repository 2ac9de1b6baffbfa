-- ===== src/Planner/Orchestration/Tests.antt =====
-- A failed validation leads to another attempt.
use agentic_guide_system.Prelude.{◌↔◌, ◌≡◌, refl, false, none, some}
use agentic_guide_system.Planner.Schemas.{validate, replan, ToolResult}
use agentic_guide_system.Planner.State.{default_settings, phase_from_raw}
use agentic_guide_system.Planner.Samples.{new_state}
use agentic_guide_system.Planner.Orchestration.{phase_of, maybe_transition_phase}
use agentic_guide_system.Planner.Orchestration.Steps.{Next}
use agentic_guide_system.Planner.Orchestration.Edges.{maybe_transition_phase-Next}

abbrev failed : ToolResult
failed = record {
  ok = false;
  code = some "validation_failed";
  payload = none;
  fallback_used = false;
}

failed_validation :
    phase_of
      (maybe_transition_phase default_settings (new_state validate) "validate_itinerary" failed)
    ≡ replan
unfolding maybe_transition_phase phase_from_raw
failed_validation = refl

maybe_transition_phase-Next_example :
    (phase_of
        (maybe_transition_phase default_settings (new_state validate) "validate_itinerary" failed)
      ≡ replan)
    ↔ Next default_settings (new_state validate) "validate_itinerary" false replan
maybe_transition_phase-Next_example =
    maybe_transition_phase-Next default_settings (new_state validate) "validate_itinerary" failed
      replan
