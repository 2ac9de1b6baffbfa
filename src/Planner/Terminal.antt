-- ===== src/Planner/Terminal.antt =====
-- src/planner/emit_terminals.py: the one event that ends a generation. White space at the ends of a
-- question (`strip`) is the parameter `strip`.
pub mod Precedence
pub mod Tests
use agentic_guide_system.Prelude.{
  ℕ, zero, suc, String, Option, none, some, Bool, true, false, ◌&&◌, List, length, str_eq,
  if◌then◌else◌,
}
use agentic_guide_system.Planner.Schemas.{Itinerary}
use agentic_guide_system.Planner.State.{TravelState}
use agentic_guide_system.Planner.Stuck.{schedule_has_stops}

pub data TerminalEvent : Type 0 where
  clarification_needed : String → TerminalEvent
  itinerary_done : Option Itinerary → ℕ → TerminalEvent
  generation_aborted : TerminalEvent

abbrev pub default_clarification : String
default_clarification = "Could you clarify your trip preferences?"

module _ (strip : String → String) where
  abbrev stripped : String → String
  stripped question =
      if str_eq (strip question) "" then strip default_clarification else strip question

  unfoldable pub question_of : Option String → String
  question_of none = strip default_clarification
  question_of (some question) = stripped question

abbrev pub days_or : ℕ → ℕ → ℕ
days_or zero n = n
days_or (suc days) n = suc days

unfoldable pub resolve_terminal_from_state :
    (String → String) → TravelState → Bool → Option TerminalEvent
unfolding question_of schedule_has_stops
resolve_terminal_from_state strip st already_emitted_error =
    if already_emitted_error
    then none
    else if st.needs_clarification
    then some (clarification_needed (question_of strip st.clarification_question))
    else if st.plan_complete && schedule_has_stops st.schedule
    then some (itinerary_done st.itinerary (days_or st.days (length st.schedule)))
    else some generation_aborted
