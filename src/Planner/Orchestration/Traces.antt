-- ===== src/Planner/Orchestration/Traces.antt =====
-- src/planner/tools/orchestration.py: the trace grows by one entry for each result.
use mathlib.Core.List.{map-append}
use agentic_guide_system.Prelude.{
  ℕ, ◌+◌, String, Option, none, some, Bool, List, [], ◌∷◌, ◌++◌, map, ◌≡◌, refl, ◌∙◌, arith, leb,
  if_ind, if◌then◌else◌, not, ◌&&◌,
}
use agentic_guide_system.Planner.Schemas.{AgentPhase, ToolTraceEntry, ToolResult, Entry}
use agentic_guide_system.Planner.State.{Settings, TravelState, phase_from_raw}
use agentic_guide_system.Planner.Orchestration.{
  transition, transition_from, maybe_transition_phase, apply_tool_result, merge_entry,
  merge_entries, entries_of, is_registered, is_unknown_tool,
}

-- The names of the calls that the trace records, in order.
abbrev pub traced : TravelState → List String
traced st = map (λ (e : ToolTraceEntry). e.name) st.tool_trace

merge_entry-trace : (st : TravelState) (e : Entry) → (merge_entry st e).tool_trace ≡ st.tool_trace
unfolding merge_entry
merge_entry-trace st e = ground arith

merge_entries-trace :
    (st : TravelState) (es : List Entry) → (merge_entries st es).tool_trace ≡ st.tool_trace
unfolding merge_entries
merge_entries-trace st [] = refl
merge_entries-trace st (e ∷ es) = merge_entries-trace (merge_entry st e) es ∙ merge_entry-trace st e

transition-trace :
    (settings : Settings) (phase : AgentPhase) (st : TravelState) (name : String) (ok : Bool)
    → (transition settings phase st name ok).tool_trace ≡ st.tool_trace
unfolding transition
transition-trace settings phase st name ok = ground arith

transition_from-trace :
    (settings : Settings) (raw : Option AgentPhase) (st : TravelState) (name : String) (ok : Bool)
    → (transition_from settings raw st name ok).tool_trace ≡ st.tool_trace
unfolding transition_from
transition_from-trace settings none st name ok = refl
transition_from-trace settings (some phase) st name ok = transition-trace settings phase st name ok

pub maybe_transition_phase-trace :
    (settings : Settings) (st : TravelState) (name : String) (result : ToolResult)
    → (maybe_transition_phase settings st name result).tool_trace ≡ st.tool_trace
unfolding maybe_transition_phase
maybe_transition_phase-trace settings st name result =
    if_ind (λ (after : TravelState). after.tool_trace ≡ st.tool_trace)
      (leb settings.planner_max_tool_calls st.tool_loop_count) refl
      (transition_from-trace settings (phase_from_raw st.agent_phase) st name result.ok)

apply_tool_result-merged :
    (st : TravelState) (name : String) (result : ToolResult)
    → (merge_entries
        (if is_registered name && not (is_unknown_tool result.code)
          then record st { tool_loop_count = st.tool_loop_count + 1 }
          else st)
        (entries_of result.payload)).tool_trace
      ≡ st.tool_trace
apply_tool_result-merged st name result =
    if_ind
      (λ (counted : TravelState).
        (merge_entries counted (entries_of result.payload)).tool_trace ≡ st.tool_trace)
      (is_registered name && not (is_unknown_tool result.code))
      (merge_entries-trace (record st { tool_loop_count = st.tool_loop_count + 1 })
        (entries_of result.payload))
      (merge_entries-trace st (entries_of result.payload))

pub apply_tool_result-trace :
    (st : TravelState) (name : String) (result : ToolResult) (ms : ℕ)
    → traced (apply_tool_result st name result ms) ≡ traced st ++ name ∷ []
unfolding apply_tool_result
apply_tool_result-trace st name result ms =
    rw (apply_tool_result-merged st name result) (rw map-append refl)
