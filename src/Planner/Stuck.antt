-- ===== src/Planner/Stuck.antt =====
-- src/planner/tools/orchestration.py: the fingerprint of a run's progress, and the detector that ends
-- each cycle. A text is the list of its characters' codes; how Python prints a validation error
-- (`str(e)`) is the parameter `render`.
pub mod Settling
use agentic_guide_system.Prelude.{
  ℕ, zero, suc, ◌+◌, ◌/◌, ◌%◌, ◌==◌, String, Option, none, some, Bool, true, false, not, ◌&&◌, List,
  [], ◌∷◌, ◌++◌, map, any, length, take, is_empty, ltb, if◌then◌else◌,
}
use agentic_guide_system.Prelude.Order.{codes}
use agentic_guide_system.Travel.Validator.{ValidationError, ValidationResult}
use agentic_guide_system.Planner.Schemas.{
  AgentPhase, discover, plan, validate, replan, wrap_up, phase_value, ScheduleDay,
}
use agentic_guide_system.Planner.State.{Settings, TravelState, enum}
use agentic_guide_system.Planner.Orchestration.{phase_of, set_phase, abort}

unfoldable pub schedule_has_stops : List ScheduleDay → Bool
schedule_has_stops schedule = any (λ day. not (is_empty day.stops)) schedule

-- The decimal digits of a number, before a text. A number has fewer digits than its value plus one.
digits : ℕ → ℕ → List ℕ → List ℕ
digits zero n rest = (48 + n % 10) ∷ rest
digits (suc fuel) n rest =
    let more = digits fuel (n / 10) ((48 + n % 10) ∷ rest) in
    if ltb n 10 then (48 + n) ∷ rest else more

decimal : ℕ → List ℕ
unfolding digits
decimal n = digits n n []

-- `",".join(parts)`
join : List (List ℕ) → List ℕ
join [] = []
join (part ∷ []) = part
join (part ∷ other ∷ parts) = part ++ codes "," ++ join (other ∷ parts)

errors_of : Option ValidationResult → List ValidationError
errors_of none = []
errors_of (some result) = result.errors

module _ (render : ValidationError → List ℕ) where
  unfoldable pub progress_fingerprint : TravelState → List ℕ
  unfolding join decimal errors_of
  progress_fingerprint st =
      codes (phase_value (phase_of st))
      ++ codes "|c="
      ++ decimal (length st.candidate_pois)
      ++ codes "|r="
      ++ decimal (length st.ranked_pois)
      ++ codes "|rt="
      ++ decimal (length st.route)
      ++ codes "|s="
      ++ decimal (length st.schedule)
      ++ codes "|v="
      ++ join (map (λ e. take 80 (render e)) (take 5 (errors_of st.validation_result)))

unfoldable pub same_text : List ℕ → List ℕ → Bool
same_text [] [] = true
same_text [] (y ∷ ys) = false
same_text (x ∷ xs) [] = false
same_text (x ∷ xs) (y ∷ ys) = (x == y) && same_text xs ys

unfoldable pub is_same : Option (List ℕ) → List ℕ → Bool
unfolding same_text
is_same none fingerprint = false
is_same (some previous) fingerprint = same_text previous fingerprint

-- The end of each branch: a warning is appended, and the count starts again.
abbrev warn : TravelState → String → TravelState
warn st code = record st { warnings = st.warnings ++ code ∷ []; stuck_cycles = 0 }

-- What is done with a state whose count has reached the limit, by its phase.
unfoldable pub unstick : AgentPhase → TravelState → TravelState
unfolding schedule_has_stops
unstick discover st =
    if is_empty st.candidate_pois
    then warn (abort st) "phase_stuck_discover_no_pois"
    else warn (set_phase st plan) "phase_stuck_auto_advance"
unstick plan st =
    if schedule_has_stops st.schedule
    then warn (set_phase st validate) "phase_stuck_auto_advance"
    else warn (abort st) "phase_stuck_plan_no_schedule"
unstick validate st = warn (set_phase st wrap_up) "phase_stuck_auto_advance"
unstick replan st = warn (abort st) "phase_stuck_replan_abort"
unstick wrap_up st = warn (record st { plan_complete = true }) "phase_stuck_wrap_up_force_complete"

-- The state with the cycle counted.
unfoldable pub count_cycle : (ValidationError → List ℕ) → TravelState → TravelState
unfolding progress_fingerprint is_same
count_cycle render st =
    let fingerprint = progress_fingerprint render st in
    record st {
      stuck_fingerprint = some fingerprint;
      stuck_cycles = if is_same st.stuck_fingerprint fingerprint then st.stuck_cycles + 1 else 1;
    }

unfoldable pub run_stuck_detector :
    (ValidationError → List ℕ) → Settings → TravelState → TravelState
unfolding count_cycle unstick
run_stuck_detector render settings st =
    let counted = count_cycle render st in
    if ltb counted.stuck_cycles settings.planner_agent_phase_stuck_limit
    then counted
    else unstick (phase_of counted) counted
