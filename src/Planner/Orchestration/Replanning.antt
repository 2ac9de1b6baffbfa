-- ===== src/Planner/Orchestration/Replanning.antt =====
-- src/planner/tools/orchestration.py: the count of replans stays within its bound.
use agentic_guide_system.Prelude.{
  ℕ, ◌+◌, ◌≤◌, String, Option, none, some, Bool, List, [], ◌∷◌, ◌≡◌, refl, ◌∙◌, arith, leb, ltb,
  if_cases, if_ind, str_eq, not, ◌&&◌,
}
use agentic_guide_system.Planner.Schemas.{
  AgentPhase, discover, plan, validate, replan, wrap_up, ToolResult, Entry,
}
use agentic_guide_system.Planner.State.{Settings, TravelState, phase_from_raw}
use agentic_guide_system.Planner.Orchestration.{
  max_replan, is_replan_tool, transition, transition_from, maybe_transition_phase,
  apply_tool_result, merge_entry, merge_entries, entries_of, is_registered, is_unknown_tool,
}

-- The replans that were done, within the bound that the state or the settings name.
unfoldable pub IsWithinReplans : Settings → TravelState → Type 0
IsWithinReplans settings st = st.replan_loop_count ≤ max_replan settings st

-- A state with the same count and the same bound.
abbrev pub SameReplans : TravelState → TravelState → Type 0
SameReplans st after =
    (after.replan_loop_count ≡ st.replan_loop_count)
    × (after.max_replan_attempts ≡ st.max_replan_attempts)

pub IsWithinReplans-Same :
    (settings : Settings) (st after : TravelState)
    → SameReplans st after
    → IsWithinReplans settings st
    → IsWithinReplans settings after
unfolding IsWithinReplans
IsWithinReplans-Same settings st after (c, m) h = rw (c, m) h

merge_entry-Same : (st : TravelState) (e : Entry) → SameReplans st (merge_entry st e)
unfolding merge_entry
merge_entry-Same st e = (ground arith, ground arith)

merge_entries-Same : (st : TravelState) (es : List Entry) → SameReplans st (merge_entries st es)
unfolding merge_entries
merge_entries-Same st [] = (refl, refl)
merge_entries-Same st (e ∷ es) =
    let rest = merge_entries-Same (merge_entry st e) es in
    let first = merge_entry-Same st e in (rest.0 ∙ first.0, rest.1 ∙ first.1)

pub apply_tool_result-Same :
    (st : TravelState) (name : String) (result : ToolResult) (ms : ℕ)
    → SameReplans st (apply_tool_result st name result ms)
unfolding apply_tool_result
apply_tool_result-Same st name result ms =
    if_ind
      (λ (counted : TravelState).
        SameReplans st (merge_entries counted (entries_of result.payload)))
      (is_registered name && not (is_unknown_tool result.code))
      (merge_entries-Same (record st { tool_loop_count = st.tool_loop_count + 1 })
        (entries_of result.payload))
      (merge_entries-Same st (entries_of result.payload))

transition-IsWithinReplans :
    (settings : Settings) (phase : AgentPhase) (st : TravelState) (name : String) (ok : Bool)
    → IsWithinReplans settings st
    → IsWithinReplans settings (transition settings phase st name ok)
unfolding transition IsWithinReplans
transition-IsWithinReplans settings discover st name ok h = ground arith
transition-IsWithinReplans settings plan st name ok h = ground arith
transition-IsWithinReplans settings validate st name ok h =
    if_ind (IsWithinReplans settings) (not (str_eq name "validate_itinerary")) h (
      if_ind (IsWithinReplans settings) ok h (
        if_cases (IsWithinReplans settings) (ltb st.replan_loop_count (max_replan settings st))
          (λ e. ground arith) (λ e. h)))
transition-IsWithinReplans settings replan st name ok h =
    if_ind (IsWithinReplans settings) (str_eq name "accept_partial" && ok) h (
      if_ind (IsWithinReplans settings) (leb (max_replan settings st) st.replan_loop_count) h (
        if_ind (IsWithinReplans settings)
          (is_replan_tool name && (not (str_eq name "accept_partial") && ok)) h h))
transition-IsWithinReplans settings wrap_up st name ok h = h

transition_from-IsWithinReplans :
    (settings : Settings) (raw : Option AgentPhase) (st : TravelState) (name : String) (ok : Bool)
    → IsWithinReplans settings st
    → IsWithinReplans settings (transition_from settings raw st name ok)
unfolding transition_from
transition_from-IsWithinReplans settings none st name ok h = h
transition_from-IsWithinReplans settings (some phase) st name ok h =
    transition-IsWithinReplans settings phase st name ok h

pub maybe_transition_phase-IsWithinReplans :
    (settings : Settings) (st : TravelState) (name : String) (result : ToolResult)
    → IsWithinReplans settings st
    → IsWithinReplans settings (maybe_transition_phase settings st name result)
unfolding maybe_transition_phase IsWithinReplans
maybe_transition_phase-IsWithinReplans settings st name result h =
    if_ind (IsWithinReplans settings) (leb settings.planner_max_tool_calls st.tool_loop_count) h
      (transition_from-IsWithinReplans settings (phase_from_raw st.agent_phase) st name result.ok h)
