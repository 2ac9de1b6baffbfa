-- ===== src/Planner/Orchestration/Edges.antt =====
-- src/planner/tools/orchestration.py: the phase after a call is the one of the table.
use agentic_guide_system.Prelude.{
  ◌<◌, ◌≡◌, ◌↔◌, refl, sym, ◌∙◌, subst, inl, inr, String, Option, none, some, Bool, true, false,
  arith, leb, ltb, str_eq, ◌&&◌, if_ind, Bool-cases,
}
use agentic_guide_system.Planner.Schemas.{
  AgentPhase, discover, plan, validate, replan, wrap_up, ToolResult,
}
use agentic_guide_system.Planner.State.{Settings, TravelState, phase_from_raw}
use agentic_guide_system.Planner.Orchestration.{
  phase_of, max_replan, transition, transition_from, maybe_transition_phase,
}
use agentic_guide_system.Planner.Orchestration.Steps.{Step, Move, Next, moves, stays, Leads, leads}

module _ (settings : Settings) (st : TravelState) (tool : String) (ok : Bool) where
  more :
      st.replan_loop_count < max_replan settings st
      → leb (max_replan settings st) st.replan_loop_count ≡ false
  more less = ground arith

  -- Every step of the table is taken.
  reaches :
      (raw : Option AgentPhase) (q : AgentPhase)
      → Step settings st tool ok raw q
      → phase_of (transition_from settings raw st tool ok) ≡ q
  unfolding transition_from transition phase_from_raw
  reaches none q h = absurd h
  reaches (some discover) discover h = absurd h
  reaches (some discover) plan (n, o) = rw (n, o) refl
  reaches (some discover) validate h = absurd h
  reaches (some discover) replan h = absurd h
  reaches (some discover) wrap_up h = absurd h
  reaches (some plan) discover h = absurd h
  reaches (some plan) plan h = absurd h
  reaches (some plan) validate (n, o) = rw (n, o) refl
  reaches (some plan) replan h = absurd h
  reaches (some plan) wrap_up h = absurd h
  reaches (some validate) discover h = absurd h
  reaches (some validate) plan h = absurd h
  reaches (some validate) validate h = absurd h
  reaches (some validate) replan (n, o, less) =
      let more : ltb st.replan_loop_count (max_replan settings st) ≡ true = ground arith in
      rw (n, o, more) refl
  reaches (some validate) wrap_up (n, inl o) = rw (n, o) refl
  reaches (some validate) wrap_up (n, inr le) =
      let spent : ltb st.replan_loop_count (max_replan settings st) ≡ false = ground arith in
      rw (n, spent) (if_ind (λ (s : TravelState). phase_of s ≡ wrap_up) ok refl refl)
  reaches (some replan) discover h = absurd h
  reaches (some replan) plan (again, o, less) = elim again [
    | inl e ↦ rw (e, more less, o) refl
    | inr (inl e) ↦ rw (e, more less, o) refl
    | inr (inr e) ↦ rw (e, more less, o) refl
  ]
  reaches (some replan) validate h = absurd h
  reaches (some replan) replan h = absurd h
  reaches (some replan) wrap_up (inl (n, o)) = rw (n, o) refl
  reaches (some replan) wrap_up (inr le) =
      let spent : leb (max_replan settings st) st.replan_loop_count ≡ true = ground arith in
      rw spent (
        if_ind (λ (s : TravelState). phase_of s ≡ wrap_up) (str_eq tool "accept_partial" && ok) refl
          refl)
  reaches (some wrap_up) discover h = absurd h
  reaches (some wrap_up) plan h = absurd h
  reaches (some wrap_up) validate h = absurd h
  reaches (some wrap_up) replan h = absurd h
  reaches (some wrap_up) wrap_up h = absurd h

module _ (settings : Settings) (st : TravelState) (tool : String) (result : ToolResult) where
  abbrev pub after : TravelState
  after = maybe_transition_phase settings st tool result

  abbrev LeadsTo : AgentPhase → Type 0
  LeadsTo q = Next settings st tool result.ok q

  moved : (q : AgentPhase) → Move settings st tool result.ok q → phase_of after ≡ q
  unfolding maybe_transition_phase phase_from_raw
  moved q (inl (capped, e)) =
      let full : leb settings.planner_max_tool_calls st.tool_loop_count ≡ true = ground arith in
      rw full (sym e)
  moved q (inr (free, step)) =
      let below : leb settings.planner_max_tool_calls st.tool_loop_count ≡ false = ground arith in
      rw below (reaches settings st tool result.ok (phase_from_raw st.agent_phase) q step)

  abbrev tabled : TravelState
  tabled = transition_from settings (phase_from_raw st.agent_phase) st tool result.ok

  abbrev Steps : AgentPhase → Type 0
  Steps q = Step settings st tool result.ok (phase_from_raw st.agent_phase) q

  nowhere :
      st.tool_loop_count < settings.planner_max_tool_calls
      → ((q : AgentPhase) → ¬ Steps q)
      → (q : AgentPhase) → ¬ Move settings st tool result.ok q
  nowhere free none_there q (inl (capped, e)) = omega arith
  nowhere free none_there q (inr (f, step)) = none_there q step

  led :
      st.tool_loop_count < settings.planner_max_tool_calls
      → Leads settings st tool result.ok tabled (phase_from_raw st.agent_phase)
      → LeadsTo (phase_of tabled)
  led free (inl step) = moves (inr (free, step))
  led free (inr (same, none_there)) = subst LeadsTo (sym same) (stays (nowhere free none_there))

  goes : LeadsTo (phase_of after)
  unfolding maybe_transition_phase phase_from_raw
  goes = elim (Bool-cases (leb settings.planner_max_tool_calls st.tool_loop_count)) [
    | inl full ↦ rw full (moves (inl (ground arith, refl)))
    | inr below ↦
        rw below
          (led (ground arith) (leads settings st tool result.ok (phase_from_raw st.agent_phase)))
  ]

  unique : {q r : AgentPhase} → LeadsTo q → LeadsTo r → q ≡ r
  unique (moves {q} m) (moves {q = r} n) = sym (moved q m) ∙ moved r n
  unique (moves {q} m) (stays none_there) = absurd (none_there q m)
  unique (stays none_there) (moves {q = r} n) = absurd (none_there r n)
  unique (stays a) (stays b) = refl

  -- The phase after a call is the one that the table gives, and no other. With the calls at their cap
  -- that is wrap_up. Before, a successful rank_places leads from discover to plan, a successful
  -- build_schedule from plan to validate, and a successful validate_itinerary from validate to wrap_up;
  -- a failed one leads to replan while replans are left and else to wrap_up. From replan, a successful
  -- accept_partial or the last replan leads to wrap_up, and another successful replanning tool to plan.
  -- Where none of these applies the phase stays.
  pub maybe_transition_phase-Next :
      (q : AgentPhase) → (phase_of after ≡ q) ↔ Next settings st tool result.ok q
  maybe_transition_phase-Next q = ((λ e. subst LeadsTo e goes), λ n. unique goes n)
