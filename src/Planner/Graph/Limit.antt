-- ===== src/Planner/Graph/Limit.antt =====
-- src/planner/service.py: `_recursion_limit`, the number of LangGraph steps that a generation may take,
-- beside a run that takes more.
use agentic_guide_system.Prelude.{
  ℕ, zero, suc, ◌+◌, ◌-◌, ◌*◌, ◌/◌, ◌%◌, ◌==◌, String, Option, none, some, true, false, [], ◌∷◌,
  ◌++◌, ◌≡◌, refl, if◌then◌else◌,
}
use agentic_guide_system.Travel.Samples.{cafe}
use agentic_guide_system.Planner.Schemas.{discover, ToolResult, Entry}
use agentic_guide_system.Planner.State.{Settings, TravelState, default_settings, phase_from_raw}
use agentic_guide_system.Planner.Samples.{new_state, ms, call, render}
use agentic_guide_system.Planner.Graph.{World, planner_loop}

abbrev stuck_phase_hops : ℕ
stuck_phase_hops = 4

abbrev graph_bookend_steps : ℕ
graph_bookend_steps = 4

unfoldable pub recursion_limit : Settings → ℕ
recursion_limit settings =
    settings.planner_max_tool_calls * 2
    + settings.planner_agent_phase_stuck_limit * stuck_phase_hops * 2
    + graph_bookend_steps

-- A cycle takes two steps, and the nodes outside the loop take three.
abbrev cycles_within : ℕ → ℕ
cycles_within steps = (steps - 3) / 2

-- A language model that asks for an unknown tool between any two searches.
abbrev wavering : ℕ → String
wavering zero = "book_hotel"
wavering (suc i) = if i % 2 == 0 then "book_hotel" else "search_places"

-- A search that finds one more place each time.
abbrev search : String → String → TravelState → Option ToolResult
search name json st = some (record {
  ok = true;
  code = none;
  payload = some (Entry.candidate_pois (st.candidate_pois ++ cafe ∷ []) ∷ []);
  fallback_used = false;
})

abbrev wavering_world : World
wavering_world = record {
  model = λ i st. record {
    first = some (record { tool_calls = call (wavering i) ∷ []; retry_count = 0 });
    second = none;
  };
  tool = λ i. search;
  ms = λ i. ms;
  render = render;
}

limit_steps : recursion_limit default_settings ≡ 52
unfolding recursion_limit
limit_steps = refl

-- The run is not over when the steps are spent.
over_limit :
    planner_loop wavering_world default_settings (cycles_within 52) 0 (new_state discover) ≡ none
unfolding planner_loop phase_from_raw
over_limit = refl
