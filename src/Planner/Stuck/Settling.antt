-- ===== src/Planner/Stuck/Settling.antt =====
-- src/planner/tools/orchestration.py: the end of a cycle makes progress. The stuck detector counts the
-- cycle, or it moves the phase nearer to the end, or it completes the plan.
use agentic_guide_system.Prelude.{
  ℕ, suc, ◌<◌, ◌≤◌, true, List, [], ◌∷◌, ◌≡◌, refl, ◌∙◌, ◌⊎◌, inl, inr, ltb, arith, if_cases,
  if_ind, if◌then◌else◌,
}
use agentic_guide_system.Travel.Validator.{ValidationError}
use agentic_guide_system.Planner.Schemas.{AgentPhase, discover, plan, validate, replan, wrap_up}
use agentic_guide_system.Planner.State.{Settings, TravelState, phase_from_raw}
use agentic_guide_system.Planner.Orchestration.{phase_of}
use agentic_guide_system.Planner.Orchestration.Replanning.{SameReplans}
use agentic_guide_system.Planner.Stuck.{
  progress_fingerprint, same_text, is_same, count_cycle, unstick, run_stuck_detector,
}

-- How far a phase is from the end, where replan ranks below plan: only a counted call leads back.
abbrev pub rank : AgentPhase → ℕ
rank discover = 4
rank plan = 3
rank validate = 2
rank replan = 1
rank wrap_up = 0

-- The cycles that have been counted for the progress that the state shows now.
unfoldable pub fresh : (ValidationError → List ℕ) → TravelState → ℕ
unfolding is_same progress_fingerprint
fresh render st =
    if is_same st.stuck_fingerprint (progress_fingerprint render st) then st.stuck_cycles else 0

same_text_refl : (xs : List ℕ) → same_text xs xs ≡ true
unfolding same_text
same_text_refl [] = refl
same_text_refl (x ∷ xs) = ground (arith, same_text_refl xs)

pub fresh-le :
    (render : ValidationError → List ℕ) (st : TravelState) → fresh render st ≤ st.stuck_cycles
unfolding fresh
fresh-le render st = ground arith

-- Counting a cycle does not change what the fingerprint shows.
count_cycle-same :
    (render : ValidationError → List ℕ) (st : TravelState)
    → is_same
        (count_cycle render st).stuck_fingerprint
        (progress_fingerprint render (count_cycle render st))
      ≡ true
unfolding count_cycle is_same progress_fingerprint
count_cycle-same render st = same_text_refl (progress_fingerprint render st)

count_cycle-fresh :
    (render : ValidationError → List ℕ) (st : TravelState)
    → fresh render (count_cycle render st) ≡ (count_cycle render st).stuck_cycles
unfolding fresh
count_cycle-fresh render st = rw (count_cycle-same render st) refl

count_cycle-suc :
    (render : ValidationError → List ℕ) (st : TravelState)
    → (count_cycle render st).stuck_cycles ≡ suc (fresh render st)
unfolding fresh count_cycle
count_cycle-suc render st = ground arith

-- One of the ways in which a cycle's end makes progress.
abbrev pub Settles : (ValidationError → List ℕ) → TravelState → TravelState → Type 0
Settles render st after =
    (after.plan_complete ≡ true)
    ⊎ ((rank (phase_of after) < rank (phase_of st))
        ⊎ ((phase_of after ≡ phase_of st) × (fresh render after ≡ suc (fresh render st))))

unstick-rank :
    (phase : AgentPhase) (st : TravelState)
    → phase_of st ≡ phase
    → ((unstick phase st).plan_complete ≡ true) ⊎ (rank (phase_of (unstick phase st)) < rank phase)
unfolding unstick phase_from_raw
unstick-rank discover st e = ground arith
unstick-rank plan st e = ground arith
unstick-rank validate st e = inr (omega arith)
unstick-rank replan st e = inr (omega arith)
unstick-rank wrap_up st e = inl refl

unstick-cycles : (phase : AgentPhase) (st : TravelState) → (unstick phase st).stuck_cycles ≡ 0
unfolding unstick
unstick-cycles discover st = ground arith
unstick-cycles plan st = ground arith
unstick-cycles validate st = refl
unstick-cycles replan st = refl
unstick-cycles wrap_up st = refl

unstick-count :
    (phase : AgentPhase) (st : TravelState)
    → (unstick phase st).tool_loop_count ≡ st.tool_loop_count
unfolding unstick
unstick-count discover st = ground arith
unstick-count plan st = ground arith
unstick-count validate st = refl
unstick-count replan st = refl
unstick-count wrap_up st = refl

unstick-trace :
    (phase : AgentPhase) (st : TravelState)
    → ((unstick phase st).tool_trace ≡ st.tool_trace)
      × ((unstick phase st).pending_tool_calls ≡ st.pending_tool_calls)
      × SameReplans st (unstick phase st)
unfolding unstick
unstick-trace discover st = (ground arith, ground arith, (ground arith, ground arith))
unstick-trace plan st = (ground arith, ground arith, (ground arith, ground arith))
unstick-trace validate st = (refl, refl, (refl, refl))
unstick-trace replan st = (refl, refl, (refl, refl))
unstick-trace wrap_up st = (refl, refl, (refl, refl))

phase-counted :
    (render : ValidationError → List ℕ) (st : TravelState)
    → phase_of (count_cycle render st) ≡ phase_of st
unfolding count_cycle
phase-counted render st = refl

module _ (render : ValidationError → List ℕ) (settings : Settings) where
  pub run_stuck_detector-count :
      (st : TravelState)
      → (run_stuck_detector render settings st).tool_loop_count ≡ st.tool_loop_count
  unfolding run_stuck_detector count_cycle
  run_stuck_detector-count st =
      if_ind (λ (after : TravelState). after.tool_loop_count ≡ st.tool_loop_count)
        (ltb (count_cycle render st).stuck_cycles settings.planner_agent_phase_stuck_limit) refl
        (unstick-count (phase_of st) (count_cycle render st))

  pub run_stuck_detector-trace :
      (st : TravelState) → (run_stuck_detector render settings st).tool_trace ≡ st.tool_trace
  unfolding run_stuck_detector count_cycle
  run_stuck_detector-trace st =
      if_ind (λ (after : TravelState). after.tool_trace ≡ st.tool_trace)
        (ltb (count_cycle render st).stuck_cycles settings.planner_agent_phase_stuck_limit) refl
        (unstick-trace (phase_of st) (count_cycle render st)).0

  pub run_stuck_detector-pending :
      (st : TravelState)
      → (run_stuck_detector render settings st).pending_tool_calls ≡ st.pending_tool_calls
  unfolding run_stuck_detector count_cycle
  run_stuck_detector-pending st =
      if_ind (λ (after : TravelState). after.pending_tool_calls ≡ st.pending_tool_calls)
        (ltb (count_cycle render st).stuck_cycles settings.planner_agent_phase_stuck_limit) refl
        (unstick-trace (phase_of st) (count_cycle render st)).1

  pub run_stuck_detector-Same :
      (st : TravelState) → SameReplans st (run_stuck_detector render settings st)
  unfolding run_stuck_detector count_cycle
  run_stuck_detector-Same st =
      if_ind (SameReplans st)
        (ltb (count_cycle render st).stuck_cycles settings.planner_agent_phase_stuck_limit)
        (refl, refl) (unstick-trace (phase_of st) (count_cycle render st)).2

  -- The count that is left is below the limit.
  pub run_stuck_detector-cycles :
      (st : TravelState)
      → 1 ≤ settings.planner_agent_phase_stuck_limit
      → (run_stuck_detector render settings st).stuck_cycles
        < settings.planner_agent_phase_stuck_limit
  unfolding run_stuck_detector
  run_stuck_detector-cycles st h =
      if_cases
        (λ (after : TravelState). after.stuck_cycles < settings.planner_agent_phase_stuck_limit)
        (ltb (count_cycle render st).stuck_cycles settings.planner_agent_phase_stuck_limit)
        (λ e. ground arith)
        (λ e.
          omega (arith, unstick-cycles (phase_of (count_cycle render st)) (count_cycle render st)))

  pub run_stuck_detector-Settles :
      (st : TravelState) → Settles render st (run_stuck_detector render settings st)
  unfolding run_stuck_detector
  run_stuck_detector-Settles st =
      let counted = count_cycle render st in
      if_ind (Settles render st) (ltb counted.stuck_cycles settings.planner_agent_phase_stuck_limit)
        (inr
          (inr (phase-counted render st, count_cycle-fresh render st ∙ count_cycle-suc render st)))
        (elim (unstick-rank (phase_of counted) counted refl) [
          | inl done ↦ inl done
          | inr less ↦ inr (inl (rw (← phase-counted render st) less))
        ])
