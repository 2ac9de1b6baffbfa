-- ===== src/Planner/Agent.antt =====
-- src/planner/graph/nodes/agent.py: the node that decides the next tool calls. What the language
-- model answers is an input: its calls or none, for the first request and for the nudged one, and the
-- `WandrLLMError` that either may raise. Token usage and the texts of the messages are left out.
use agentic_guide_system.Prelude.{
  ℕ, ◌+◌, String, Option, none, some, Bool, true, List, [], ◌∷◌, ◌++◌, map, is_empty, leb,
  if◌then◌else◌,
}
use agentic_guide_system.Planner.Schemas.{
  AgentPhase, discover, plan, validate, replan, wrap_up, default_tool_by_phase, PendingToolCall,
}
use agentic_guide_system.Planner.State.{Settings, TravelState, enum}
use agentic_guide_system.Planner.Orchestration.{phase_of}
use agentic_guide_system.Planner.Executor.{or_empty_object}

-- One answer of `chat_with_tools`.
pub record ChatResponse : Type 0 where
  pub tool_calls : List PendingToolCall
  pub retry_count : ℕ

-- What `chat_with_tools` does: it answers, or it raises WandrLLMError (none). The second is the
-- answer to the nudged request.
pub record Model : Type 0 where
  pub first : Option ChatResponse
  pub second : Option ChatResponse

abbrev is_none : Option ℕ → Bool
is_none none = true
is_none (some n) = Bool.false

abbrev default_in_phase : AgentPhase → TravelState → String
default_in_phase discover st =
    if is_none st.readiness_score
    then "check_readiness"
    else if is_empty st.candidate_pois
    then "search_places"
    else "rank_places"
default_in_phase plan st = if is_empty st.route then "build_route" else "build_schedule"
default_in_phase validate st = default_tool_by_phase validate
default_in_phase replan st = default_tool_by_phase replan
default_in_phase wrap_up st = default_tool_by_phase wrap_up

unfoldable pub default_tool_for_state : TravelState → String
default_tool_for_state st = default_in_phase (phase_of st) st

unfoldable pub synthesize_default : TravelState → List PendingToolCall
unfolding default_tool_for_state
synthesize_default st = record { name = default_tool_for_state st; arguments_json = "{}" } ∷ []

unfoldable pub pending_dicts : List PendingToolCall → List PendingToolCall
pending_dicts calls =
    map {A = PendingToolCall} {B = PendingToolCall}
      (λ call. record call { arguments_json = or_empty_object call.arguments_json }) calls

-- The return of the `except` branch, where `retries` is the count when the error was raised.
unfoldable pub llm_failed : TravelState → ℕ → TravelState
unfolding synthesize_default
llm_failed st retries = record st {
  pending_tool_calls = synthesize_default st;
  llm_retry_count = retries + 1;
  warnings = st.warnings ++ "agent_no_tool_call_default_used" ∷ [];
}

-- After the nudge.
unfoldable pub nudged : TravelState → ℕ → Option ChatResponse → TravelState
unfolding synthesize_default pending_dicts llm_failed
nudged st retries none = llm_failed st retries
nudged st retries (some response) =
    if is_empty response.tool_calls
    then record st {
      pending_tool_calls = synthesize_default st;
      llm_retry_count = retries + response.retry_count;
      warnings = st.warnings ++ "agent_no_tool_call_default_used" ∷ [];
    }
    else record st {
      pending_tool_calls = pending_dicts response.tool_calls;
      llm_retry_count = retries + response.retry_count;
      warnings = st.warnings ++ "agent_nudged" ∷ [];
    }

unfoldable pub ask_model : TravelState → Model → Option ChatResponse → TravelState
unfolding pending_dicts llm_failed nudged
ask_model st model none = llm_failed st st.llm_retry_count
ask_model st model (some response) =
    if is_empty response.tool_calls
    then nudged st (st.llm_retry_count + response.retry_count) model.second
    else record st {
      pending_tool_calls = pending_dicts response.tool_calls;
      llm_retry_count = st.llm_retry_count + response.retry_count;
    }

unfoldable pub agent_node : Settings → TravelState → Model → TravelState
unfolding ask_model
agent_node settings st model =
    if leb settings.planner_max_tool_calls st.tool_loop_count
    then record st { abort_triggered = true; agent_phase = enum wrap_up; pending_tool_calls = [] }
    else ask_model st model model.first
