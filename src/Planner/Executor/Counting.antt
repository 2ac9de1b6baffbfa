-- ===== src/Planner/Executor/Counting.antt =====
-- src/planner/graph/nodes/tool_executor.py: a batch of calls either counts a call, or it changes
-- nothing that the stuck detector looks at.
use agentic_guide_system.Prelude.{
  ℕ, ◌<◌, String, Option, none, some, true, false, not, List, [], ◌∷◌, ◌≡◌, refl, ap, ◌⊎◌, inl, inr,
  arith, Bool-cases, Option-cases, if_cases, if_ind,
}
use agentic_guide_system.Planner.Schemas.{PendingToolCall, ToolResult}
use agentic_guide_system.Planner.State.{Settings, TravelState}
use agentic_guide_system.Planner.Orchestration.{
  is_registered, is_unknown_tool, apply_tool_result, maybe_transition_phase,
}
use agentic_guide_system.Planner.Orchestration.Quiet.{
  Quiet, Quiet-trans, maybe_transition_phase-Quiet, apply_tool_result-Quiet,
  maybe_transition_phase-count, apply_tool_result-count,
}
use agentic_guide_system.Planner.Registry.{execute_tool, check_preconditions, or_tool_error}
use agentic_guide_system.Planner.Executor.{Batch, run_call, run_pending, run_all, or_empty_object}

-- No registered tool answers with the code that is kept for names that are not registered.
unfoldable pub IsKnownTool : (String → String → TravelState → Option ToolResult) → Type 0
IsKnownTool tool =
    (name arguments_json : String) (st : TravelState) (result : ToolResult)
    → tool name arguments_json st ≡ some result
    → is_unknown_tool result.code ≡ false

-- A state with more calls counted, or a quiet one.
abbrev pub Moves : TravelState → TravelState → Type 0
Moves st after = (st.tool_loop_count < after.tool_loop_count) ⊎ Quiet st after

Moves-trans : (a b c : TravelState) → Moves a b → Moves b c → Moves a c
Moves-trans a b c (inl p) (inl q) = inl (omega arith)
Moves-trans a b c (inl p) (inr (q, s)) = inl (omega (arith, ap (λ k. k.count) q))
Moves-trans a b c (inr (p, s)) (inl q) = inl (omega (arith, ap (λ k. k.count) p))
Moves-trans a b c (inr p) (inr q) = inr (Quiet-trans a b c p q)

module _ (tool : String → String → TravelState → Option ToolResult) (known : IsKnownTool tool)
    (ms : String → TravelState → ℕ) (settings : Settings) where
  or_tool_error-known :
      (name json : String) (st : TravelState)
      → is_unknown_tool (or_tool_error (tool name json st)).code ≡ false
  unfolding or_tool_error is_unknown_tool IsKnownTool
  or_tool_error-known name json st = elim (Option-cases (tool name json st)) [
    | inl e ↦ rw e refl
    | inr (r, e) ↦ rw e (known name json st r e)
  ]

  execute_tool-known :
      (name json : String) (st : TravelState)
      → is_registered name ≡ true
      → is_unknown_tool (execute_tool tool name json st).code ≡ false
  unfolding execute_tool is_unknown_tool
  execute_tool-known name json st h =
      if_cases (λ (r : ToolResult). is_unknown_tool r.code ≡ false) (not (is_registered name))
        (λ e. ground arith)
        (λ e.
          if_ind (λ (r : ToolResult). is_unknown_tool r.code ≡ false)
            (not (check_preconditions name st)) refl (or_tool_error-known name json st))

  execute_tool-unregistered :
      (name json : String) (st : TravelState)
      → is_registered name ≡ false
      → (execute_tool tool name json st).payload ≡ none
  unfolding execute_tool
  execute_tool-unregistered name json st h = rw h refl

  run_call-Moves :
      (st : TravelState) (call : PendingToolCall) → Moves st (run_call tool ms settings st call)
  unfolding run_call
  run_call-Moves st call =
      let json = or_empty_object call.arguments_json in
      let result = execute_tool tool call.name json st in
      let applied = apply_tool_result st call.name result (ms call.name st) in
      let after = maybe_transition_phase settings applied call.name result in
      elim (Bool-cases (is_registered call.name)) [
        | inl h ↦ inl (
            omega (
              arith,
              maybe_transition_phase-count settings applied call.name result,
              apply_tool_result-count st call.name result (ms call.name st) h
                  (execute_tool-known call.name json st h),
            ))
        | inr h ↦ inr (
            Quiet-trans st applied after
              (apply_tool_result-Quiet st call.name result (ms call.name st) h
                (execute_tool-unregistered call.name json st h))
              (maybe_transition_phase-Quiet settings applied call.name result h))
      ]

  pub run_all-Moves :
      (b : Batch) (calls : List PendingToolCall)
      → Moves b.working (run_all tool ms settings b calls).working
  unfolding run_all run_pending
  run_all-Moves b [] = inr (refl, inl refl)
  run_all-Moves b (call ∷ calls) =
      let next = run_pending tool ms settings b call in
      Moves-trans b.working next.working (run_all tool ms settings next calls).working
        (run_call-Moves b.working call) (run_all-Moves next calls)
