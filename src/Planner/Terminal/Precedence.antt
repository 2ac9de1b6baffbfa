-- ===== src/Planner/Terminal/Precedence.antt =====
-- src/planner/emit_terminals.py: the precedence of the terminal events.
use agentic_guide_system.Prelude.{
  ℕ, zero, suc, ◌<◌, String, Option, some, Bool, true, false, ◌≡◌, ◌↔◌, arith, length, List,
}
use agentic_guide_system.Planner.Schemas.{Itinerary, ScheduleDay}
use agentic_guide_system.Planner.State.{TravelState}
use agentic_guide_system.Planner.Stuck.{schedule_has_stops}
use agentic_guide_system.Planner.Terminal.{
  TerminalEvent, itinerary_done, days_or, resolve_terminal_from_state,
}

abbrev pub IsDone : Option TerminalEvent → Type 0
IsDone event =
    (itinerary : Option Itinerary) × (days : ℕ) × (event ≡ some (itinerary_done itinerary days))
    × (0 < days)

has_stops-length :
    (schedule : List ScheduleDay) → schedule_has_stops schedule ≡ true → 0 < length schedule
unfolding schedule_has_stops
has_stops-length List.[] h = ground arith
has_stops-length (List.◌∷◌ day days) h = omega arith

days_or-pos : (d n : ℕ) → 0 < n → 0 < days_or d n
days_or-pos zero n h = h
days_or-pos (suc d) n h = omega arith

-- The generation ends with itinerary_done, for at least one day, exactly when no error event went out
-- before, no clarification is needed, the plan is complete and some day of the schedule has a stop.
pub resolve_terminal_from_state-IsDone :
    (strip : String → String) (st : TravelState) (already : Bool)
    → IsDone (resolve_terminal_from_state strip st already) ↔ (
        (already ≡ false)
        × (st.needs_clarification ≡ false)
        × (st.plan_complete ≡ true)
        × (schedule_has_stops st.schedule ≡ true))
unfolding resolve_terminal_from_state
resolve_terminal_from_state-IsDone strip st already = (
  (λ (i, n, e, p). (ground arith, ground arith, ground arith, ground arith)),
  (λ (a, c, p, s). (
    st.itinerary,
    days_or st.days (length st.schedule),
    ground arith,
    days_or-pos st.days (length st.schedule) (has_stops-length st.schedule s),
  )),
)
