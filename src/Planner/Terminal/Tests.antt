-- ===== src/Planner/Terminal/Tests.antt =====
-- A completed plan with a stop.
use agentic_guide_system.Prelude.{◌≡◌, ◌↔◌, refl, true, false, none, some, String}
use agentic_guide_system.Planner.Schemas.{wrap_up}
use agentic_guide_system.Planner.State.{TravelState}
use agentic_guide_system.Planner.Stuck.{schedule_has_stops}
use agentic_guide_system.Planner.Samples.{new_state, one_day}
use agentic_guide_system.Planner.Terminal.{itinerary_done, resolve_terminal_from_state}
use agentic_guide_system.Planner.Terminal.Precedence.{IsDone, resolve_terminal_from_state-IsDone}

abbrev finished : TravelState
finished = record (new_state wrap_up) { plan_complete = true; schedule = one_day }

abbrev strip : String → String
strip question = question

resolve_finished : resolve_terminal_from_state strip finished false ≡ some (itinerary_done none 1)
unfolding resolve_terminal_from_state schedule_has_stops
resolve_finished = refl

resolve_terminal_from_state-IsDone_example :
    IsDone (resolve_terminal_from_state strip finished false) ↔ (
      (false ≡ false)
      × (finished.needs_clarification ≡ false)
      × (finished.plan_complete ≡ true)
      × (schedule_has_stops finished.schedule ≡ true))
resolve_terminal_from_state-IsDone_example = resolve_terminal_from_state-IsDone strip finished false
