-- ===== src/Travel/Schedule/Tests.antt =====
-- A day of three stops, and a way over lunch that is too long.
use agentic_guide_system.Prelude.{
  ℕ, ◌+◌, ◌<◌, ◌≡◌, ◌≢◌, refl, false, none, String, List, [], ◌∷◌, map, All, arith,
}
use agentic_guide_system.Prelude.Dict.{get, pair_eq}
use agentic_guide_system.Prelude.Int.{pos}
use agentic_guide_system.Prelude.Order.{codes}
use agentic_guide_system.Prelude.Result.{ok}
use agentic_guide_system.Travel.Clock.{format_hhmm}
use agentic_guide_system.Travel.Rules.{visit_duration_min}
use agentic_guide_system.Travel.Samples.{stops, scored, monastery, viewpoint, cafe, routing}
use agentic_guide_system.Travel.Places.{ScoredPlace}
use agentic_guide_system.Travel.Days.{is_morning_only}
use agentic_guide_system.Travel.Routing.{RouteLeg, legs_to_lookup}
use agentic_guide_system.Travel.Route.{Lookup, day_waypoints}
use agentic_guide_system.Travel.Schedule.{
  ScheduledStop, LoopState, Timed, to_stop, extract_morning_first, required_hops, hop_duration,
  time_stops, build_day_schedule, lunch_start, day_start,
}
use agentic_guide_system.Travel.Schedule.Morning.{
  IsMorningFirst, extract_morning_first-IsMorningFirst,
}
use agentic_guide_system.Travel.Schedule.Times.{IsTimetable, lunch_swallows_travel}
use agentic_guide_system.Travel.Schedule.Build.{
  HasLeg, IsTimed, timed_order, build_day_schedule-IsTimetable, build_day_schedule-ok,
}

abbrev pub legs : List RouteLeg
legs = routing.travel_matrix (day_waypoints (pos 10) (pos 20) routing stops)

extract_morning_first-IsMorningFirst_example : IsMorningFirst stops (extract_morning_first stops)
extract_morning_first-IsMorningFirst_example = extract_morning_first-IsMorningFirst stops

hops_have_legs : All (HasLeg (legs_to_lookup legs)) (required_hops (timed_order stops false))
unfolding required_hops extract_morning_first legs_to_lookup get day_waypoints is_morning_only
hops_have_legs = ((_, refl), ((_, refl), ((_, refl), tt)))

abbrev pub at_time : ScoredPlace → ℕ → String → ScheduledStop
at_time s minutes time = record {
  place = s.place;
  score = s.score;
  visit_duration = minutes;
  suggested_start_time = codes time;
  arrival_note = none;
}

abbrev pub schedule : List ScheduledStop
schedule =
    at_time (scored 14 viewpoint) 20 "09:20"
    ∷ at_time (scored 10 monastery) 45 "10:20"
    ∷ at_time (scored 0 cafe) 30 "12:25"
    ∷ []

pub build_day_schedule_stops : build_day_schedule stops legs false ≡ ok schedule
unfolding build_day_schedule extract_morning_first legs_to_lookup get day_waypoints is_morning_only
    visit_duration_min format_hhmm day_start
build_day_schedule_stops = refl

build_day_schedule-ok_example :
    (scheduled : List ScheduledStop) × (build_day_schedule stops legs false ≡ ok scheduled)
unfolding day_waypoints
build_day_schedule-ok_example = build_day_schedule-ok stops legs false (omega arith) hops_have_legs

not_empty : stops ≢ []
not_empty e = cc

build_day_schedule-IsTimetable_example :
    (timed : List Timed) × (map to_stop timed ≡ schedule)
    × IsTimed (legs_to_lookup legs) (timed_order stops false) timed
    × IsTimetable (legs_to_lookup legs) 480 (timed_order stops false) timed
build_day_schedule-IsTimetable_example =
    build_day_schedule-IsTimetable stops legs false build_day_schedule_stops not_empty

abbrev noon : LoopState
noon = record { clock = 700; lunch_taken = false }

abbrev long_leg : Lookup
long_leg =
    (
      (1, 3),
      record {
        from_place_id = 1;
        to_place_id = 3;
        duration_min = 120;
        distance_m = 9000;
        used_fallback = false;
      },
    )
    ∷ []

abbrev swallowed : List Timed
swallowed =
    record { scored = scored 10 monastery; visit = 45; start = 700; note = none }
    ∷ record { scored = scored 0 cafe; visit = 30; start = 840; note = none }
    ∷ []

long_leg_minutes : hop_duration long_leg 1 3 ≡ ok 120
unfolding hop_duration get
long_leg_minutes = refl

swallowed_times : time_stops long_leg noon (scored 10 monastery ∷ scored 0 cafe ∷ []) ≡ ok swallowed
unfolding time_stops get visit_duration_min lunch_start
swallowed_times = refl

before_one : 700 + visit_duration_min "monastery" < 780
unfolding visit_duration_min
before_one = omega arith

after_two : 840 < 700 + visit_duration_min "monastery" + 120
unfolding visit_duration_min
after_two = omega arith

lunch_swallows_travel_example :
    (t : Timed) × (u : Timed) × (more : List Timed) × (swallowed ≡ t ∷ u ∷ more)
    × (u.start ≡ 840)
    × (u.start < t.start + t.visit + 120)
lunch_swallows_travel_example =
    lunch_swallows_travel long_leg noon (scored 10 monastery) (scored 0 cafe) [] 120 refl before_one
      long_leg_minutes after_two swallowed_times
