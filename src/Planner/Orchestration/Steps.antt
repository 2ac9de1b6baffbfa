-- ===== src/Planner/Orchestration/Steps.antt =====
-- src/planner/tools/orchestration.py: the transition table, by phase, tool, outcome and counts, and what
-- the code makes of each phase.
use agentic_guide_system.Prelude.{
  ◌≤◌, ◌<◌, ◌≡◌, refl, ◌⊎◌, inl, inr, String, Option, none, some, Bool, true, false, arith, leb,
  ltb, str_eq, eq_iff, not, ◌&&◌, &&-eq-true, if_ind, Bool-cases,
}
use agentic_guide_system.Planner.Schemas.{AgentPhase, discover, plan, validate, replan, wrap_up}
use agentic_guide_system.Planner.State.{Settings, TravelState, phase_from_raw}
use agentic_guide_system.Planner.Orchestration.{
  phase_of, max_replan, is_replan_tool, transition, transition_from,
}

-- The tools that plan again.
abbrev pub IsRetry : String → Type 0
IsRetry tool =
    (tool ≡ "reoptimize_routes") ⊎ ((tool ≡ "drop_weakest_stop") ⊎ (tool ≡ "expand_poi_search"))

module _ (settings : Settings) (st : TravelState) (tool : String) (ok : Bool) where
  -- The table: what leads from a phase to another.
  abbrev pub Step : Option AgentPhase → AgentPhase → Type 0
  Step (some discover) plan = (tool ≡ "rank_places") × (ok ≡ true)
  Step (some plan) validate = (tool ≡ "build_schedule") × (ok ≡ true)
  Step (some validate) wrap_up =
      (tool ≡ "validate_itinerary")
      × ((ok ≡ true) ⊎ (max_replan settings st ≤ st.replan_loop_count))
  Step (some validate) replan =
      (tool ≡ "validate_itinerary") × (ok ≡ false) × (st.replan_loop_count < max_replan settings st)
  Step (some replan) plan =
      IsRetry tool × (ok ≡ true) × (st.replan_loop_count < max_replan settings st)
  Step (some replan) wrap_up =
      ((tool ≡ "accept_partial") × (ok ≡ true)) ⊎ (max_replan settings st ≤ st.replan_loop_count)
  Step _ _ = ⊥

  -- From any phase to wrap_up once the calls have reached their cap; before, along the table.
  abbrev pub Move : AgentPhase → Type 0
  Move q =
      ((settings.planner_max_tool_calls ≤ st.tool_loop_count) × (q ≡ wrap_up))
      ⊎ ((st.tool_loop_count < settings.planner_max_tool_calls)
          × Step (phase_from_raw st.agent_phase) q)

  -- The phase after a call: one that a move leads to, or the same where there is no move.
  pub data Next : AgentPhase → Type 0 where
    moves : {q : AgentPhase} → Move q → Next q
    stays : ((q : AgentPhase) → ¬ Move q) → Next (phase_of st)

  -- What a phase of the state leads to, the count of calls apart.
  abbrev pub Leads : TravelState → Option AgentPhase → Type 0
  Leads after raw =
      Step raw (phase_of after)
      ⊎ ((phase_of after ≡ phase_of st) × ((q : AgentPhase) → ¬ Step raw q))

  named_and : (name : String) → (str_eq tool name && ok) ≡ true → (tool ≡ name) × (ok ≡ true)
  named_and name e = let (n, o) = &&-eq-true (str_eq tool name) ok e in ((eq_iff tool name).0 n, o)

  not_named_and :
      (name : String) → (str_eq tool name && ok) ≡ false → ¬ ((tool ≡ name) × (ok ≡ true))
  not_named_and name e (n, o) = cc (e, (eq_iff tool name).1 n, o)

  discovers : Leads (transition settings discover st tool ok) (some discover)
  unfolding transition phase_from_raw
  discovers = elim (Bool-cases (str_eq tool "rank_places" && ok)) [
    | inl e ↦ rw e (inl (named_and "rank_places" e))
    | inr e ↦ rw e (
        if_ind (λ (s : TravelState). Leads s (some discover))
          (str_eq tool "ask_clarification" && ok) (inr (refl, stuck e)) (inr (refl, stuck e)))
  ]
    where
      stuck :
          (str_eq tool "rank_places" && ok) ≡ false → (q : AgentPhase) → ¬ Step (some discover) q
      stuck e discover h = h
      stuck e plan h = not_named_and "rank_places" e h
      stuck e validate h = h
      stuck e replan h = h
      stuck e wrap_up h = h

  plans : Leads (transition settings plan st tool ok) (some plan)
  unfolding transition phase_from_raw
  plans = elim (Bool-cases (str_eq tool "build_schedule" && ok)) [
    | inl e ↦ rw e (inl (named_and "build_schedule" e))
    | inr e ↦ rw e (inr (refl, stuck e))
  ]
    where
      stuck : (str_eq tool "build_schedule" && ok) ≡ false → (q : AgentPhase) → ¬ Step (some plan) q
      stuck e discover h = h
      stuck e plan h = h
      stuck e validate h = not_named_and "build_schedule" e h
      stuck e replan h = h
      stuck e wrap_up h = h

  validates : Leads (transition settings validate st tool ok) (some validate)
  unfolding transition phase_from_raw
  validates = elim (Bool-cases (str_eq tool "validate_itinerary")) [
    | inr other ↦ rw other (inr (refl, stuck other))
    | inl named ↦
        let name = (eq_iff tool "validate_itinerary").0 named in
        elim (Bool-cases ok) [
          | inl passed ↦ rw (named, passed) (inl (name, inl refl))
          | inr failed ↦ elim (Bool-cases (ltb st.replan_loop_count (max_replan settings st))) [
            | inl more ↦ rw (named, failed, more) (inl (name, refl, ground arith))
            | inr spent ↦ rw (named, failed, spent) (inl (name, inr (ground arith)))
          ]
        ]
  ]
    where
      stuck : str_eq tool "validate_itinerary" ≡ false → (q : AgentPhase) → ¬ Step (some validate) q
      stuck e discover h = h
      stuck e plan h = h
      stuck e validate h = h
      stuck e replan h = cc (e, (eq_iff tool "validate_itinerary").1 h.0)
      stuck e wrap_up h = cc (e, (eq_iff tool "validate_itinerary").1 h.0)

  retry : (is_replan_tool tool && not (str_eq tool "accept_partial")) ≡ true → IsRetry tool
  retry e = ground (
    arith,
    eq_iff tool "reoptimize_routes",
    eq_iff tool "drop_weakest_stop",
    eq_iff tool "expand_poi_search",
  )

  pub is_retry : IsRetry tool → (is_replan_tool tool && not (str_eq tool "accept_partial")) ≡ true
  is_retry (inl e) = rw e refl
  is_retry (inr (inl e)) = rw e refl
  is_retry (inr (inr e)) = rw e refl

  replans : Leads (transition settings replan st tool ok) (some replan)
  unfolding transition phase_from_raw
  replans = elim (Bool-cases (str_eq tool "accept_partial" && ok)) [
    | inl e ↦ rw e (inl (inl (named_and "accept_partial" e)))
    | inr e ↦ elim (Bool-cases (leb (max_replan settings st) st.replan_loop_count)) [
      | inl spent ↦ rw (e, spent) (inl (inr (ground arith)))
      | inr more ↦
          elim (Bool-cases (is_replan_tool tool && (not (str_eq tool "accept_partial") && ok))) [
            | inl again ↦
                rw (e, more, again) (inl (retry (ground arith), ground arith, ground arith))
            | inr no_more ↦ rw (e, more, no_more) (inr (refl, stuck e more no_more))
          ]
    ]
  ]
    where
      stuck :
          (str_eq tool "accept_partial" && ok) ≡ false
          → leb (max_replan settings st) st.replan_loop_count ≡ false
          → (is_replan_tool tool && (not (str_eq tool "accept_partial") && ok)) ≡ false
          → (q : AgentPhase) → ¬ Step (some replan) q
      stuck e more no_more discover h = h
      stuck e more no_more plan (again, passed, less) = ground (arith, is_retry again)
      stuck e more no_more validate h = h
      stuck e more no_more replan h = h
      stuck e more no_more wrap_up (inl h) = not_named_and "accept_partial" e h
      stuck e more no_more wrap_up (inr h) = ground arith

  wraps : Leads (transition settings wrap_up st tool ok) (some wrap_up)
  unfolding transition
  wraps = inr (refl, stuck)
    where
      stuck : (q : AgentPhase) → ¬ Step (some wrap_up) q
      stuck discover h = h
      stuck plan h = h
      stuck validate h = h
      stuck replan h = h
      stuck wrap_up h = h

  pub leads : (raw : Option AgentPhase) → Leads (transition_from settings raw st tool ok) raw
  unfolding transition_from
  leads none = inr (refl, nowhere)
    where
      nowhere : (q : AgentPhase) → ¬ Step none q
      nowhere q h = h
  leads (some discover) = discovers
  leads (some plan) = plans
  leads (some validate) = validates
  leads (some replan) = replans
  leads (some wrap_up) = wraps
