-- ===== src/Planner/Registry/Gate.antt =====
-- src/planner/tools/registry.py: a tool function runs only behind the gate of its phase.
use agentic_guide_system.Prelude.{
  String, Option, none, Bool, true, false, not, ◌≡◌, refl, ◌⊎◌, inl, inr, arith, if_cases, if_ind,
  str_eq, ◌&&◌, ◌||◌,
}
use agentic_guide_system.Planner.Schemas.{ToolResult}
use agentic_guide_system.Planner.State.{TravelState, phase_from_raw}
use agentic_guide_system.Planner.Orchestration.{is_registered}
use agentic_guide_system.Planner.Registry.{
  is_allowed, finish_plan_ok, check_preconditions, or_tool_error, execute_tool,
}

-- What the gate lets through: the function's own answer, in a phase that admits it, and for
-- `finish_plan` with its precondition.
abbrev pub Ran :
    (String → String → TravelState → Option ToolResult) → String → String → TravelState → Type 0
Ran tool name json st =
    (is_registered name ≡ true)
    × (is_allowed name (phase_from_raw st.agent_phase) ≡ true)
    × (str_eq name "finish_plan" ≡ true → finish_plan_ok st ≡ true)
    × (execute_tool tool name json st ≡ or_tool_error (tool name json st))

-- And what it refuses: a failure without data.
abbrev pub Refused :
    (String → String → TravelState → Option ToolResult) → String → String → TravelState → Type 0
Refused tool name json st =
    ((execute_tool tool name json st).ok ≡ false)
    × ((execute_tool tool name json st).payload ≡ none)

not-eq-false : (b : Bool) → not b ≡ false → b ≡ true
not-eq-false b h = ground arith

gate-eq-true :
    (a b c d : Bool)
    → (a && (b && (not c || d))) ≡ true
    → (a ≡ true) × (b ≡ true) × (c ≡ true → d ≡ true)
gate-eq-true a b c d h = (ground arith, ground arith, λ e. ground arith)

-- The two outcomes, of a result.
abbrev Outcome :
    (String → String → TravelState → Option ToolResult)
    → String
    → String
    → TravelState
    → ToolResult
    → Type 0
Outcome tool name json st result =
    ((is_registered name ≡ true)
      × (is_allowed name (phase_from_raw st.agent_phase) ≡ true)
      × (str_eq name "finish_plan" ≡ true → finish_plan_ok st ≡ true)
      × (result ≡ or_tool_error (tool name json st)))
    ⊎ ((result.ok ≡ false) × (result.payload ≡ none))

check_preconditions-eq-true :
    (name : String) (st : TravelState)
    → check_preconditions name st ≡ true
    → (is_registered name ≡ true)
      × (is_allowed name (phase_from_raw st.agent_phase) ≡ true)
      × (str_eq name "finish_plan" ≡ true → finish_plan_ok st ≡ true)
unfolding check_preconditions
check_preconditions-eq-true name st h =
    gate-eq-true (is_registered name) (is_allowed name (phase_from_raw st.agent_phase))
      (str_eq name "finish_plan") (finish_plan_ok st) h

-- A call of execute_tool either is the tool function's own answer, or the failure for what it raised,
-- and then the name is registered, the phase of the state admits it and finish_plan's precondition
-- holds where finish_plan is called; or the call fails without data.
pub execute_tool-gated :
    (tool : String → String → TravelState → Option ToolResult) (name json : String)
    (st : TravelState)
    → Ran tool name json st ⊎ Refused tool name json st
unfolding execute_tool
execute_tool-gated tool name json st =
    if_ind (Outcome tool name json st) (not (is_registered name)) (inr (refl, refl)) (
      if_cases (Outcome tool name json st) (not (check_preconditions name st))
        (λ e. inr (refl, refl))
        (λ e.
          let gate =
            check_preconditions-eq-true name st (not-eq-false (check_preconditions name st) e) in
          inl (gate.0, gate.1, gate.2, refl)))
