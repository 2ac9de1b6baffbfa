-- ===== src/Planner/Graph/Replans.antt =====
-- src/planner/graph/builder.py: the replans of a whole run stay within their bound.
use agentic_guide_system.Prelude.{
  ℕ, zero, suc, ◌+◌, ◌*◌, ◌<◌, ◌≤◌, Option, none, some, List, [], ◌∷◌, ◌≡◌, refl, is_empty, leb,
  if_ind, some-eq-some, subst, String,
}
use agentic_guide_system.Planner.Schemas.{PendingToolCall, ToolResult}
use agentic_guide_system.Planner.State.{Settings, TravelState}
use agentic_guide_system.Planner.Orchestration.{apply_tool_result}
use agentic_guide_system.Planner.Orchestration.Replanning.{
  IsWithinReplans, SameReplans, IsWithinReplans-Same, apply_tool_result-Same,
  maybe_transition_phase-IsWithinReplans,
}
use agentic_guide_system.Planner.Registry.{execute_tool}
use agentic_guide_system.Planner.Stuck.{run_stuck_detector}
use agentic_guide_system.Planner.Stuck.Settling.{run_stuck_detector-Same}
use agentic_guide_system.Planner.Executor.{
  Batch, run_call, run_pending, run_all, or_empty_object, tool_executor_node,
}
use agentic_guide_system.Planner.Executor.Counting.{IsKnownTool}
use agentic_guide_system.Planner.Agent.{
  Model, ChatResponse, agent_node, ask_model, nudged, llm_failed,
}
use agentic_guide_system.Planner.Graph.{World, cycle, planner_loop, route_after_tools, is_agent}
use agentic_guide_system.Planner.Graph.Termination.{planner_loop-ends}

nudged-Same :
    (st : TravelState) (n : ℕ) (answer : Option ChatResponse) → SameReplans st (nudged st n answer)
unfolding nudged llm_failed
nudged-Same st n none = (refl, refl)
nudged-Same st n (some r) =
    if_ind (SameReplans st) (is_empty r.tool_calls) (refl, refl) (refl, refl)

ask_model-Same :
    (st : TravelState) (model : Model) (answer : Option ChatResponse)
    → SameReplans st (ask_model st model answer)
unfolding ask_model llm_failed
ask_model-Same st model none = (refl, refl)
ask_model-Same st model (some r) =
    if_ind (SameReplans st) (is_empty r.tool_calls)
      (nudged-Same st (st.llm_retry_count + r.retry_count) model.second) (refl, refl)

agent_node-Same :
    (settings : Settings) (st : TravelState) (model : Model)
    → SameReplans st (agent_node settings st model)
unfolding agent_node
agent_node-Same settings st model =
    if_ind (SameReplans st) (leb settings.planner_max_tool_calls st.tool_loop_count) (refl, refl)
      (ask_model-Same st model model.first)

module _ (tool : String → String → TravelState → Option ToolResult) (ms : String → TravelState → ℕ)
    (settings : Settings) where
  run_call-IsWithinReplans :
      (st : TravelState) (call : PendingToolCall)
      → IsWithinReplans settings st
      → IsWithinReplans settings (run_call tool ms settings st call)
  unfolding run_call
  run_call-IsWithinReplans st call h =
      let result = execute_tool tool call.name (or_empty_object call.arguments_json) st in
      let applied = apply_tool_result st call.name result (ms call.name st) in
      maybe_transition_phase-IsWithinReplans settings applied call.name result (
        IsWithinReplans-Same settings st applied
          (apply_tool_result-Same st call.name result (ms call.name st)) h)

  run_all-IsWithinReplans :
      (b : Batch) (calls : List PendingToolCall)
      → IsWithinReplans settings b.working
      → IsWithinReplans settings (run_all tool ms settings b calls).working
  unfolding run_all run_pending
  run_all-IsWithinReplans b [] h = h
  run_all-IsWithinReplans b (call ∷ calls) h =
      run_all-IsWithinReplans (run_pending tool ms settings b call) calls
        (run_call-IsWithinReplans b.working call h)

cycle-IsWithinReplans :
    (world : World) (settings : Settings) (i : ℕ) (st : TravelState)
    → IsWithinReplans settings st
    → IsWithinReplans settings (cycle world settings i st)
unfolding cycle tool_executor_node
cycle-IsWithinReplans world settings i st h =
    let decided = agent_node settings st (world.model i st) in
    let start : Batch = record {
      working = decided;
      last_phase = decided.agent_phase;
      emitted = [];
    } in
    let end : TravelState =
      (run_all (world.tool i) (world.ms i) settings start decided.pending_tool_calls).working in
    let done : TravelState = record end { pending_tool_calls = [] } in
    let within =
      IsWithinReplans-Same settings st decided (agent_node-Same settings st (world.model i st)) h in
    IsWithinReplans-Same settings end (run_stuck_detector world.render settings done)
      (run_stuck_detector-Same world.render settings done)
      (run_all-IsWithinReplans (world.tool i) (world.ms i) settings start decided.pending_tool_calls
        within)

planner_loop-keeps :
    (world : World) (settings : Settings) (fuel i : ℕ) (st final : TravelState)
    → IsWithinReplans settings st
    → planner_loop world settings fuel i st ≡ some final
    → IsWithinReplans settings final
unfolding planner_loop
planner_loop-keeps world settings zero i st final h e =
    let impossible : ⊥ = cc in elim impossible [ ]
planner_loop-keeps world settings (suc fuel) i st final h e =
    let after = cycle world settings i st in
    let within = cycle-IsWithinReplans world settings i st h in
    if_ind (λ (r : Option TravelState). r ≡ some final → IsWithinReplans settings final)
      (is_agent (route_after_tools after))
      (λ f. planner_loop-keeps world settings fuel (i + 1) after final within f)
      (λ f.
        subst (λ (s : TravelState). IsWithinReplans settings s) (some-eq-some after final f) within)
      e

-- A run of the loop that starts with no more replans than its bound ends with no more, whatever the
-- language model and the tools answer: `replan_loop_count` is at most `max_replan_attempts` of the
-- state, or PLANNER_MAX_REPLAN_ATTEMPTS where the state has none. The conditions and the fuel are those
-- of the loop's end.
pub planner_loop-IsWithinReplans :
    (world : World) (settings : Settings)
    → ((i : ℕ) → IsKnownTool (world.tool i))
    → 1 ≤ settings.planner_agent_phase_stuck_limit
    → (fuel i : ℕ) (st : TravelState) → st.stuck_cycles < settings.planner_agent_phase_stuck_limit
    → 5 * (settings.planner_max_tool_calls + 1) * settings.planner_agent_phase_stuck_limit ≤ fuel
    → IsWithinReplans settings st
    → (final : TravelState) × (planner_loop world settings fuel i st ≡ some final)
      × IsWithinReplans settings final
planner_loop-IsWithinReplans world settings known limit fuel i st w f h =
    let end = planner_loop-ends world settings known limit fuel i st w f in
    (end.0, end.1, planner_loop-keeps world settings fuel i st end.0 h end.1)
