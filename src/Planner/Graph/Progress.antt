-- ===== src/Planner/Graph/Progress.antt =====
-- src/planner/graph/builder.py: one cycle of agent and tools makes progress, whatever the language
-- model and the tools answer: it counts a call below the cap, or it lowers the phase, or it counts one
-- more cycle of waiting, or it completes the plan.
use agentic_guide_system.Prelude.{
  ℕ, suc, ◌+◌, ◌<◌, ◌≤◌, Option, none, some, true, List, [], ◌≡◌, refl, sym, ap, ◌∙◌, ◌⊎◌, inl, inr,
  leb, is_empty, arith, if_cases, if_ind,
}
use agentic_guide_system.Travel.Validator.{ValidationError}
use agentic_guide_system.Planner.Schemas.{AgentPhase, wrap_up}
use agentic_guide_system.Planner.State.{Settings, TravelState, phase_from_raw}
use agentic_guide_system.Planner.Orchestration.{phase_of}
use agentic_guide_system.Planner.Orchestration.Quiet.{kept, Quiet, Quiet-trans}
use agentic_guide_system.Planner.Stuck.{progress_fingerprint, run_stuck_detector}
use agentic_guide_system.Planner.Stuck.Settling.{
  rank, fresh, Settles, run_stuck_detector-count, run_stuck_detector-cycles,
  run_stuck_detector-Settles,
}
use agentic_guide_system.Planner.Executor.{run_all, tool_executor_node}
use agentic_guide_system.Planner.Executor.Counting.{IsKnownTool, run_all-Moves}
use agentic_guide_system.Planner.Agent.{
  Model, ChatResponse, agent_node, ask_model, nudged, llm_failed,
}
use agentic_guide_system.Planner.Graph.{World, cycle}

-- States that show the same progress in the same phase have waited for as long.
fresh-Quiet :
    (render : ValidationError → List ℕ) (st after : TravelState)
    → kept after ≡ kept st
    → phase_of after ≡ phase_of st
    → fresh render after ≡ fresh render st
unfolding fresh progress_fingerprint
fresh-Quiet render st after e p =
    rw
      (
        p,
        ap (λ k. k.candidates) e,
        ap (λ k. k.ranked) e,
        ap (λ k. k.route) e,
        ap (λ k. k.schedule) e,
        ap (λ k. k.validation) e,
        ap (λ k. k.fingerprint) e,
        ap (λ k. k.cycles) e,
      )
      refl

nudged-Quiet :
    (st : TravelState) (n : ℕ) (answer : Option ChatResponse) → Quiet st (nudged st n answer)
unfolding nudged llm_failed
nudged-Quiet st n none = (refl, inl refl)
nudged-Quiet st n (some r) =
    if_ind (Quiet st) (is_empty r.tool_calls) (refl, inl refl) (refl, inl refl)

ask_model-Quiet :
    (st : TravelState) (model : Model) (answer : Option ChatResponse)
    → Quiet st (ask_model st model answer)
unfolding ask_model llm_failed
ask_model-Quiet st model none = (refl, inl refl)
ask_model-Quiet st model (some r) =
    if_ind (Quiet st) (is_empty r.tool_calls)
      (nudged-Quiet st (st.llm_retry_count + r.retry_count) model.second) (refl, inl refl)

-- At the cap no call is left to run, and below it the decision changes no progress.
abbrev Decides : Settings → TravelState → TravelState → Type 0
Decides settings st decided =
    (decided.pending_tool_calls ≡ [] ⊎ (st.tool_loop_count < settings.planner_max_tool_calls))
    × Quiet st decided

agent_node-Decides :
    (settings : Settings) (st : TravelState) (model : Model)
    → Decides settings st (agent_node settings st model)
unfolding agent_node phase_from_raw
agent_node-Decides settings st model =
    if_cases (Decides settings st) (leb settings.planner_max_tool_calls st.tool_loop_count)
      (λ e. (inl refl, (refl, inr refl)))
      (λ e. (inr (ground arith), ask_model-Quiet st model model.first))

-- The states from the decision to the end of the batch: a call was counted below the cap, or nothing
-- that counts as progress changed.
abbrev Advances : Settings → TravelState → TravelState → Type 0
Advances settings st after =
    ((st.tool_loop_count < settings.planner_max_tool_calls)
      × (st.tool_loop_count < after.tool_loop_count))
    ⊎ Quiet st after

-- What the measure needs of a cycle: where it leads back to the agent, more calls are counted below
-- the cap, or as many and a lower phase, or the same phase and one more cycle waited.
abbrev pub Falls : (ValidationError → List ℕ) → Settings → TravelState → TravelState → Type 0
Falls render settings st after =
    (after.plan_complete ≡ true)
    ⊎ (((st.tool_loop_count < settings.planner_max_tool_calls)
          × (st.tool_loop_count < after.tool_loop_count))
        ⊎ ((after.tool_loop_count ≡ st.tool_loop_count)
            × ((rank (phase_of after) < rank (phase_of st))
                ⊎ ((phase_of after ≡ phase_of st) × (fresh render after ≡ suc (fresh render st))))))

wrap_up_or_above : (phase : AgentPhase) → (phase ≡ wrap_up) ⊎ (0 < rank phase)
wrap_up_or_above phase = ground arith

not_below_wrap_up : (a b : AgentPhase) → b ≡ wrap_up → rank a < rank b → ⊥
not_below_wrap_up a b e h = omega (arith, ap rank e)

-- A quiet batch, then a settled end.
Quiet-Settles :
    (render : ValidationError → List ℕ) (settings : Settings) (st x after : TravelState)
    → Quiet st x
    → after.tool_loop_count ≡ x.tool_loop_count
    → Settles render x after
    → Falls render settings st after
Quiet-Settles render settings st x after q c (inl done) = inl done
Quiet-Settles render settings st x after (k, inl p) c (inr (inl less)) =
    inr (inr (c ∙ ap (λ k. k.count) k, inl (rw (← p) less)))
Quiet-Settles render settings st x after (k, inr p) c (inr (inl less)) =
    elim (not_below_wrap_up (phase_of after) (phase_of x) p less) [ ]
Quiet-Settles render settings st x after (k, inl p) c (inr (inr (s, f))) =
    inr (inr (c ∙ ap (λ k. k.count) k, inr (s ∙ p, f ∙ ap suc (fresh-Quiet render st x k p))))
Quiet-Settles render settings st x after (k, inr p) c (inr (inr (s, f))) =
    elim (wrap_up_or_above (phase_of st)) [
      | inl w ↦ inr (
          inr (
            c ∙ ap (λ k. k.count) k,
            inr (s ∙ p ∙ sym w, f ∙ ap suc (fresh-Quiet render st x k (p ∙ sym w))),
          ))
      | inr b ↦ inr (inr (c ∙ ap (λ k. k.count) k, inl (rw (s ∙ p) b)))
    ]

module _ (world : World) (settings : Settings) (i : ℕ) (known : IsKnownTool (world.tool i)) where
  -- The state of the batch after its last call.
  abbrev batch_end : TravelState → TravelState
  batch_end decided =
      (run_all (world.tool i) (world.ms i) settings
        (record { working = decided; last_phase = decided.agent_phase; emitted = [] })
        decided.pending_tool_calls).working

  batch_end-Advances :
      (st decided : TravelState)
      → Decides settings st decided
      → Advances settings st (batch_end decided)
  unfolding run_all
  batch_end-Advances st decided (inl e, q) = inr (rw e q)
  batch_end-Advances st decided (inr below, q) =
      elim (run_all-Moves (world.tool i) known (world.ms i) settings
        (record { working = decided; last_phase = decided.agent_phase; emitted = [] })
        decided.pending_tool_calls) [
          | inl more ↦ inl (below, omega (arith, ap (λ k. k.count) q.0))
          | inr quiet ↦ inr (Quiet-trans st decided (batch_end decided) q quiet)
        ]

  pub cycle-Falls : (st : TravelState) → Falls world.render settings st (cycle world settings i st)
  unfolding cycle tool_executor_node
  cycle-Falls st =
      let decided = agent_node settings st (world.model i st) in
      let done : TravelState = record (batch_end decided) { pending_tool_calls = [] } in
      let after = run_stuck_detector world.render settings done in
      let counted = run_stuck_detector-count world.render settings done in
      elim (batch_end-Advances st decided (agent_node-Decides settings st (world.model i st))) [
        | inl (below, more) ↦ inr (inl (below, omega arith))
        | inr quiet ↦
            Quiet-Settles world.render settings st done after quiet counted
              (run_stuck_detector-Settles world.render settings done)
      ]

  pub cycle-waits :
      (st : TravelState)
      → 1 ≤ settings.planner_agent_phase_stuck_limit
      → (cycle world settings i st).stuck_cycles < settings.planner_agent_phase_stuck_limit
  unfolding cycle tool_executor_node
  cycle-waits st h =
      run_stuck_detector-cycles world.render settings
        (record (batch_end (agent_node settings st (world.model i st))) { pending_tool_calls = [] })
        h
