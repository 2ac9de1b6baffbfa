-- ===== src/Planner/Graph/Termination.antt =====
-- src/planner/graph/builder.py: the loop of agent and tools ends, whatever the language model and the
-- tools answer. A measure of the state falls with each cycle that returns to the agent: the calls
-- that are left, then the phases that are left, then the cycles that the stuck detector waits.
use agentic_guide_system.Prelude.{
  ℕ, zero, suc, ◌+◌, ◌-◌, ◌*◌, ◌<◌, ◌≤◌, some, true, false, ◌≡◌, refl, ap, ◌⊎◌, inl, inr, arith,
  Bool-cases,
}
use agentic_guide_system.Planner.Schemas.{AgentPhase}
use agentic_guide_system.Planner.State.{Settings, TravelState}
use agentic_guide_system.Planner.Orchestration.{phase_of}
use agentic_guide_system.Planner.Stuck.Settling.{rank, fresh, fresh-le}
use agentic_guide_system.Planner.Executor.Counting.{IsKnownTool}
use agentic_guide_system.Planner.Graph.{World, cycle, planner_loop, route_after_tools, is_agent}
use agentic_guide_system.Planner.Graph.Progress.{Falls, cycle-Falls, cycle-waits}

below_or_equal : (a b : ℕ) → a < suc b → (a < b) ⊎ (a ≡ b)
below_or_equal a b h = ground arith

mul-lt : (a b n : ℕ) → a < b → a * n + n ≤ b * n
mul-lt a zero n h = omega arith
mul-lt a (suc b) n h = elim (below_or_equal a b h) [
  | inl less ↦ omega (arith, mul-lt a b n less)
  | inr e ↦ rw e (omega arith)
]

rank-le : (phase : AgentPhase) → rank phase ≤ 4
rank-le phase = ground arith

-- The measure, for the cap, the limit, the count of calls, the rank of the phase and the cycles waited.
abbrev measure_of : ℕ → ℕ → ℕ → ℕ → ℕ → ℕ
measure_of cap limit count r waited = ((cap - count) * 5 + r) * limit + (limit - waited)

lower : (a b limit w v : ℕ) → a < b → v < limit → a * limit + (limit - w) < b * limit + (limit - v)
lower a b limit w v h k = omega (arith, mul-lt a b limit h)

waited :
    (cap limit c d r q w v : ℕ)
    → c ≡ d
    → r ≡ q
    → w ≡ suc v
    → v < limit
    → measure_of cap limit c r w < measure_of cap limit d q v
waited cap limit c d r q w v e f g h = rw (e, f, g) (omega arith)

module _ (world : World) (settings : Settings) where
  measure : TravelState → ℕ
  measure st =
      measure_of settings.planner_max_tool_calls settings.planner_agent_phase_stuck_limit
        st.tool_loop_count (rank (phase_of st)) (fresh world.render st)

  -- At least the cycle that is running is left.
  measure-pos :
      (st : TravelState)
      → st.stuck_cycles < settings.planner_agent_phase_stuck_limit
      → 1 ≤ measure st
  unfolding measure
  measure-pos st h = omega (arith, fresh-le world.render st)

  waits :
      (st : TravelState)
      → st.stuck_cycles < settings.planner_agent_phase_stuck_limit
      → fresh world.render st < settings.planner_agent_phase_stuck_limit
  waits st h = omega (arith, fresh-le world.render st)

  measure-Falls :
      (st after : TravelState)
      → st.stuck_cycles < settings.planner_agent_phase_stuck_limit
      → after.plan_complete ≡ false
      → Falls world.render settings st after
      → measure after < measure st
  unfolding measure
  measure-Falls st after w p (inl done) = ground arith
  measure-Falls st after w p (inr (inl (below, more))) =
      lower ((settings.planner_max_tool_calls - after.tool_loop_count) * 5 + rank (phase_of after))
        ((settings.planner_max_tool_calls - st.tool_loop_count) * 5 + rank (phase_of st))
        settings.planner_agent_phase_stuck_limit (fresh world.render after) (fresh world.render st)
        (omega (arith, rank-le (phase_of after))) (waits st w)
  measure-Falls st after w p (inr (inr (c, inl less))) =
      lower ((settings.planner_max_tool_calls - after.tool_loop_count) * 5 + rank (phase_of after))
        ((settings.planner_max_tool_calls - st.tool_loop_count) * 5 + rank (phase_of st))
        settings.planner_agent_phase_stuck_limit (fresh world.render after) (fresh world.render st)
        (omega arith) (waits st w)
  measure-Falls st after w p (inr (inr (c, inr (s, f)))) =
      waited settings.planner_max_tool_calls settings.planner_agent_phase_stuck_limit
        after.tool_loop_count st.tool_loop_count (rank (phase_of after)) (rank (phase_of st))
        (fresh world.render after) (fresh world.render st) c (ap rank s) f (waits st w)

  not_complete :
      (st : TravelState) → is_agent (route_after_tools st) ≡ true → st.plan_complete ≡ false
  unfolding route_after_tools
  not_complete st h = ground arith

  module _ (known : (i : ℕ) → IsKnownTool (world.tool i))
      (limit : 1 ≤ settings.planner_agent_phase_stuck_limit) where
    -- With as much fuel as the measure, the loop comes to a state that leaves it.
    loop_within_measure :
        (fuel i : ℕ) (st : TravelState)
        → st.stuck_cycles < settings.planner_agent_phase_stuck_limit
        → measure st ≤ fuel
        → (final : TravelState) × (planner_loop world settings fuel i st ≡ some final)
          × (is_agent (route_after_tools final) ≡ false)
    unfolding planner_loop
    loop_within_measure zero i st w h =
        let impossible : ⊥ = omega (arith, measure-pos st w) in elim impossible [ ]
    loop_within_measure (suc fuel) i st w h =
        let after = cycle world settings i st in
        elim (Bool-cases (is_agent (route_after_tools after))) [
          | inl again ↦ rw again (
              loop_within_measure fuel (i + 1) after
                (cycle-waits world settings i (known i) st limit)
                (omega (
                  arith,
                  measure-Falls st after w (not_complete after again)
                      (cycle-Falls world settings i (known i) st),
                )))
          | inr leaves ↦ (after, rw leaves refl, leaves)
        ]

  -- The measure of any state.
  measure-le :
      (st : TravelState)
      → measure st
        ≤ 5 * (settings.planner_max_tool_calls + 1) * settings.planner_agent_phase_stuck_limit
  unfolding measure
  measure-le st = omega (
    arith,
    mul-lt ((settings.planner_max_tool_calls - st.tool_loop_count) * 5 + rank (phase_of st))
        (5 * (settings.planner_max_tool_calls + 1)) settings.planner_agent_phase_stuck_limit
        (omega (arith, rank-le (phase_of st))),
  )

-- The loop of agent and tool_executor ends, whatever the language model answers, whatever the tools
-- return or raise and whichever phase it starts in, within 5 * (cap + 1) * limit cycles, where the cap
-- is PLANNER_MAX_TOOL_CALLS and the limit is PLANNER_AGENT_PHASE_STUCK_LIMIT: with as much fuel the
-- loop gives a state, and that state leaves the loop. The conditions are that no tool answers with the
-- code `unknown_tool`, that the limit is at least 1, and that the state has waited for less than the limit.
pub planner_loop-ends :
    (world : World) (settings : Settings)
    → ((i : ℕ) → IsKnownTool (world.tool i))
    → 1 ≤ settings.planner_agent_phase_stuck_limit
    → (fuel i : ℕ) (st : TravelState) → st.stuck_cycles < settings.planner_agent_phase_stuck_limit
    → 5 * (settings.planner_max_tool_calls + 1) * settings.planner_agent_phase_stuck_limit ≤ fuel
    → (final : TravelState) × (planner_loop world settings fuel i st ≡ some final)
      × (is_agent (route_after_tools final) ≡ false)
planner_loop-ends world settings known limit fuel i st w h =
    loop_within_measure world settings known limit fuel i st w
      (omega (arith, measure-le world settings st))
