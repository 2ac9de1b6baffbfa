-- ===== src/Planner/Graph.antt =====
-- src/planner/graph/builder.py: the cycle of the planner's graph, agent then tool_executor, and the
-- edge that leaves it. The answers of the language model and of the tools may change from cycle to
-- cycle, so they are functions of its number. `planner_loop` gives up (none) when its fuel is spent.
pub mod Progress
pub mod Termination
pub mod Replans
pub mod Limit
pub mod Tests
use agentic_guide_system.Prelude.{
  ℕ, zero, suc, ◌+◌, String, Option, none, some, Bool, List, if◌then◌else◌,
}
use agentic_guide_system.Travel.Validator.{ValidationError}
use agentic_guide_system.Planner.Schemas.{ToolResult}
use agentic_guide_system.Planner.State.{Settings, TravelState}
use agentic_guide_system.Planner.Executor.{tool_executor_node}
use agentic_guide_system.Planner.Agent.{Model, agent_node}

pub data Node : Type 0 where
  end : Node
  write_narrative : Node
  agent : Node

unfoldable pub route_after_tools : TravelState → Node
route_after_tools st =
    if st.needs_clarification then end else if st.plan_complete then write_narrative else agent

-- What the services do in one run.
pub record World : Type 0 where
  pub model : ℕ → TravelState → Model
  pub tool : ℕ → String → String → TravelState → Option ToolResult
  pub ms : ℕ → String → TravelState → ℕ
  pub render : ValidationError → List ℕ

-- The cycle of number `i`.
unfoldable pub cycle : World → Settings → ℕ → TravelState → TravelState
unfolding agent_node tool_executor_node
cycle world settings i st =
    let decided = agent_node settings st (world.model i st) in
    (tool_executor_node (world.tool i) (world.ms i) world.render settings decided).0

abbrev is_agent : Node → Bool
is_agent end = Bool.false
is_agent write_narrative = Bool.false
is_agent agent = Bool.true

unfoldable pub planner_loop : World → Settings → ℕ → ℕ → TravelState → Option TravelState
unfolding cycle route_after_tools
planner_loop world settings zero i st = none
planner_loop world settings (suc fuel) i st =
    let after = cycle world settings i st in
    let rest = planner_loop world settings fuel (i + 1) after in
    if is_agent (route_after_tools after) then rest else some after
