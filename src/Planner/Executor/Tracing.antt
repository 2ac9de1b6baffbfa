-- ===== src/Planner/Executor/Tracing.antt =====
-- src/planner/graph/nodes/tool_executor.py: what a batch leaves in the trace.
use mathlib.Core.List.{append-nil, append_assoc}
use agentic_guide_system.Prelude.{ℕ, String, Option, List, [], ◌∷◌, ◌++◌, map, ◌≡◌, sym, ap, ◌∙◌}
use agentic_guide_system.Travel.Validator.{ValidationError}
use agentic_guide_system.Planner.Schemas.{PendingToolCall, ToolTraceEntry, ToolResult}
use agentic_guide_system.Planner.State.{Settings, TravelState}
use agentic_guide_system.Planner.Orchestration.{apply_tool_result}
use agentic_guide_system.Planner.Orchestration.Traces.{
  traced, apply_tool_result-trace, maybe_transition_phase-trace,
}
use agentic_guide_system.Planner.Registry.{execute_tool}
use agentic_guide_system.Planner.Stuck.Settling.{
  run_stuck_detector-trace, run_stuck_detector-pending,
}
use agentic_guide_system.Planner.Executor.{
  Batch, run_call, run_pending, run_all, or_empty_object, tool_executor_node,
}

abbrev pub call_names : List PendingToolCall → List String
call_names calls = map (λ (call : PendingToolCall). call.name) calls

module _ (tool : String → String → TravelState → Option ToolResult) (ms : String → TravelState → ℕ)
    (settings : Settings) where
  run_call-trace :
      (st : TravelState) (call : PendingToolCall)
      → traced (run_call tool ms settings st call) ≡ traced st ++ call.name ∷ []
  unfolding run_call
  run_call-trace st call =
      let result = execute_tool tool call.name (or_empty_object call.arguments_json) st in
      let applied = apply_tool_result st call.name result (ms call.name st) in
      ap (map (λ (e : ToolTraceEntry). e.name))
        (maybe_transition_phase-trace settings applied call.name result)
      ∙ apply_tool_result-trace st call.name result (ms call.name st)

  run_all-trace :
      (b : Batch) (calls : List PendingToolCall)
      → traced (run_all tool ms settings b calls).working ≡ traced b.working ++ call_names calls
  unfolding run_all run_pending
  run_all-trace b [] = sym (append-nil (traced b.working))
  run_all-trace b (call ∷ calls) =
      run_all-trace (run_pending tool ms settings b call) calls
      ∙ ap (λ t. t ++ call_names calls) (run_call-trace b.working call)
      ∙ append_assoc (traced b.working) (call.name ∷ []) (call_names calls)

-- The executor leaves one entry of the trace for each pending call, in the order of the calls and
-- after the entries that were there, whether a call was run, refused, unknown or raised; and no call is
-- left pending.
pub tool_executor_node-traces :
    (tool : String → String → TravelState → Option ToolResult) (ms : String → TravelState → ℕ)
    (render : ValidationError → List ℕ) (settings : Settings) (st : TravelState)
    → (traced (tool_executor_node tool ms render settings st).0
        ≡ traced st ++ call_names st.pending_tool_calls)
      × ((tool_executor_node tool ms render settings st).0.pending_tool_calls ≡ [])
unfolding tool_executor_node
tool_executor_node-traces tool ms render settings st =
    let start : Batch = record { working = st; last_phase = st.agent_phase; emitted = [] } in
    let done : TravelState = record (run_all tool ms settings start st.pending_tool_calls).working {
      pending_tool_calls = [];
    } in
    (
      ap (map (λ (e : ToolTraceEntry). e.name)) (run_stuck_detector-trace render settings done)
          ∙ run_all-trace tool ms settings start st.pending_tool_calls,
      run_stuck_detector-pending render settings done,
    )
