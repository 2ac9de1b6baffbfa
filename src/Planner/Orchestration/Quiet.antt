-- ===== src/Planner/Orchestration/Quiet.antt =====
-- What apply_tool_result and maybe_transition_phase leave unchanged: the count of calls never falls, and
-- a name that is not registered changes nothing that the stuck detector looks at.
use agentic_guide_system.Prelude.{
  ℕ, ◌+◌, String, Option, none, some, Bool, true, false, List, [], ◌∷◌, ◌≡◌, refl, ◌∙◌, ◌⊎◌, inl,
  inr, arith, str_eq, leb, if◌then◌else◌,
}
use agentic_guide_system.Travel.Places.{PlaceCandidate, ScoredPlace}
use agentic_guide_system.Travel.Validator.{ValidationResult}
use agentic_guide_system.Planner.Schemas.{
  AgentPhase, discover, plan, validate, replan, wrap_up, RouteDay, ScheduleDay, ToolResult, Entry,
}
use agentic_guide_system.Planner.State.{Settings, TravelState, phase_from_raw}
use agentic_guide_system.Planner.Orchestration.{
  phase_of, entries_of, is_registered, is_unknown_tool, max_replan, abort, abort, transition,
  transition_from, apply_tool_result, maybe_transition_phase, merge_entry, merge_entries,
}

-- What the detector looks at, beside the phase, and the count of calls.
pub record Kept : Type 0 where
  pub candidates : List PlaceCandidate
  pub ranked : List ScoredPlace
  pub route : List RouteDay
  pub schedule : List ScheduleDay
  pub validation : Option ValidationResult
  pub fingerprint : Option (List ℕ)
  pub cycles : ℕ
  pub count : ℕ

abbrev pub kept : TravelState → Kept
kept st = record {
  candidates = st.candidate_pois;
  ranked = st.ranked_pois;
  route = st.route;
  schedule = st.schedule;
  validation = st.validation_result;
  fingerprint = st.stuck_fingerprint;
  cycles = st.stuck_cycles;
  count = st.tool_loop_count;
}

-- The second state has the first's facts, in the same phase or in wrap_up.
abbrev pub Quiet : TravelState → TravelState → Type 0
Quiet st after =
    (kept after ≡ kept st) × ((phase_of after ≡ phase_of st) ⊎ (phase_of after ≡ wrap_up))

pub Quiet-trans : (a b c : TravelState) → Quiet a b → Quiet b c → Quiet a c
Quiet-trans a b c (p, inl s) (q, inl t) = (q ∙ p, inl (t ∙ s))
Quiet-trans a b c (p, inr s) (q, inl t) = (q ∙ p, inr (t ∙ s))
Quiet-trans a b c (p, s) (q, inr t) = (q ∙ p, inr t)

-- The names that the transition table asks for are registered.
unregistered_names :
    (name : String)
    → is_registered name ≡ false
    → (str_eq name "rank_places" ≡ false)
      × (str_eq name "ask_clarification" ≡ false)
      × (str_eq name "build_schedule" ≡ false)
      × (str_eq name "validate_itinerary" ≡ false)
      × (str_eq name "accept_partial" ≡ false)
      × (str_eq name "reoptimize_routes" ≡ false)
      × (str_eq name "drop_weakest_stop" ≡ false)
      × (str_eq name "expand_poi_search" ≡ false)
unfolding is_registered
unregistered_names name h = ground arith

abort-Quiet :
    (st : TravelState) (b : Bool) (after : TravelState)
    → Quiet st after
    → Quiet st (if b then abort st else after)
unfolding phase_from_raw
abort-Quiet st true after q = (refl, inr refl)
abort-Quiet st false after q = q

transition-Quiet :
    (settings : Settings) (phase : AgentPhase) (st : TravelState) (name : String) (ok : Bool)
    → is_registered name ≡ false
    → Quiet st (transition settings phase st name ok)
unfolding transition
transition-Quiet settings discover st name ok h =
    let names = unregistered_names name h in rw (names.0, names.1) (refl, inl refl)
transition-Quiet settings plan st name ok h =
    let names = unregistered_names name h in rw names.2 (refl, inl refl)
transition-Quiet settings validate st name ok h =
    let names = unregistered_names name h in rw names.3 (refl, inl refl)
transition-Quiet settings replan st name ok h =
    let names = unregistered_names name h in
    rw (names.4, names.5, names.6, names.7)
      (abort-Quiet st (leb (max_replan settings st) st.replan_loop_count) st (refl, inl refl))
transition-Quiet settings wrap_up st name ok h = (refl, inl refl)

transition_from-Quiet :
    (settings : Settings) (raw : Option AgentPhase) (st : TravelState) (name : String) (ok : Bool)
    → is_registered name ≡ false
    → Quiet st (transition_from settings raw st name ok)
unfolding transition_from
transition_from-Quiet settings none st name ok h = (refl, inl refl)
transition_from-Quiet settings (some phase) st name ok h =
    transition-Quiet settings phase st name ok h

pub maybe_transition_phase-Quiet :
    (settings : Settings) (st : TravelState) (name : String) (result : ToolResult)
    → is_registered name ≡ false
    → Quiet st (maybe_transition_phase settings st name result)
unfolding maybe_transition_phase
maybe_transition_phase-Quiet settings st name result h =
    abort-Quiet st (leb settings.planner_max_tool_calls st.tool_loop_count)
      (transition_from settings (phase_from_raw st.agent_phase) st name result.ok)
      (transition_from-Quiet settings (phase_from_raw st.agent_phase) st name result.ok h)

-- A result without data, for a name that is not registered, only adds to the trace.
pub apply_tool_result-Quiet :
    (st : TravelState) (name : String) (result : ToolResult) (ms : ℕ)
    → is_registered name ≡ false
    → result.payload ≡ none
    → Quiet st (apply_tool_result st name result ms)
unfolding apply_tool_result merge_entries
apply_tool_result-Quiet st name result ms h e = rw (h, e) (refl, inl refl)

-- Every entry leaves the count.
merge_entry-count :
    (st : TravelState) (e : Entry) → (merge_entry st e).tool_loop_count ≡ st.tool_loop_count
unfolding merge_entry
merge_entry-count st e = ground arith

merge_entries-count :
    (st : TravelState) (es : List Entry)
    → (merge_entries st es).tool_loop_count ≡ st.tool_loop_count
unfolding merge_entries
merge_entries-count st [] = refl
merge_entries-count st (e ∷ es) = merge_entries-count (merge_entry st e) es ∙ merge_entry-count st e

transition-count :
    (settings : Settings) (phase : AgentPhase) (st : TravelState) (name : String) (ok : Bool)
    → (transition settings phase st name ok).tool_loop_count ≡ st.tool_loop_count
unfolding transition
transition-count settings phase st name ok = ground arith

transition_from-count :
    (settings : Settings) (raw : Option AgentPhase) (st : TravelState) (name : String) (ok : Bool)
    → (transition_from settings raw st name ok).tool_loop_count ≡ st.tool_loop_count
unfolding transition_from
transition_from-count settings none st name ok = refl
transition_from-count settings (some phase) st name ok = transition-count settings phase st name ok

pub maybe_transition_phase-count :
    (settings : Settings) (st : TravelState) (name : String) (result : ToolResult)
    → (maybe_transition_phase settings st name result).tool_loop_count ≡ st.tool_loop_count
unfolding maybe_transition_phase
maybe_transition_phase-count settings st name result =
    ground (arith, transition_from-count settings (phase_from_raw st.agent_phase) st name result.ok)

pub apply_tool_result-count :
    (st : TravelState) (name : String) (result : ToolResult) (ms : ℕ)
    → is_registered name ≡ true
    → is_unknown_tool result.code ≡ false
    → (apply_tool_result st name result ms).tool_loop_count ≡ st.tool_loop_count + 1
unfolding apply_tool_result
apply_tool_result-count st name result ms h e =
    rw (h, e)
      (merge_entries-count (record st { tool_loop_count = st.tool_loop_count + 1 })
        (entries_of result.payload))
