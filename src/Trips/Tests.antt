-- ===== src/Trips/Tests.antt =====
-- The trip service on a small trip.
use agentic_guide_system.Prelude.{
  ◌≡◌, refl, none, some, Bool, true, false, ◌↔◌, [], ◌∷◌, arith, All, any, length,
}
use agentic_guide_system.Prelude.Dict.{get, put}
use agentic_guide_system.Prelude.Int.{pos, negsuc}
use agentic_guide_system.Prelude.Order.{codes}
use agentic_guide_system.Prelude.Result.{Result, ok, err}
use agentic_guide_system.Travel.Rules.{base_sentinel_id}
use agentic_guide_system.Travel.Routing.{legs_to_lookup}
use agentic_guide_system.Travel.Schedule.{build_day_schedule}
use agentic_guide_system.Travel.Validator.{
  validate_trip, check_morning_slots, check_daily_travel_cap, check_no_repeat_places,
  check_anchor_per_day, has_anchor, check_geo_coherence,
}
use agentic_guide_system.Planner.Schemas.{wrap_up}
use agentic_guide_system.Planner.State.{TravelState}
use agentic_guide_system.Planner.Samples.{new_state, one_day}
use agentic_guide_system.Trips.{LoadedTrip, Trip, TripPlace, Store, TripError, null}
use agentic_guide_system.Trips.Repository.{Session, find_by, is_stop, load_places}
use agentic_guide_system.Trips.Days.{day_plan_from_scheduled}
use agentic_guide_system.Trips.Edits.{edit_rows, to_reorder, requested_type, run_edit}
use agentic_guide_system.Trips.Edits.Atomic.{Settled, run_edit-Settled}
use agentic_guide_system.Trips.Edits.Validated.{IsSound, run_edit-IsSound}
use agentic_guide_system.Trips.Edits.Stored.{IsTable, HasDistinctPlaces}
use agentic_guide_system.Trips.Edits.Stored.Refines.{IsStored}
use agentic_guide_system.Trips.Edits.Stored.Whole.{AreNumbered, run_edit-IsStored}
use agentic_guide_system.Trips.Access.{assert_can_access, claim_trip, soft_delete_for_user}
use agentic_guide_system.Trips.Access.Claims.{
  CanAccess, assert_can_access-CanAccess, IsOwned, claim_trip-IsOwned, IsGone,
  soft_delete_for_user-IsGone,
}
use agentic_guide_system.Trips.Polyline.{decode_polyline}
use agentic_guide_system.Trips.Polyline.RoundTrip.{encode_polyline, decode_polyline-encode_polyline}
use agentic_guide_system.Trips.Geojson.{
  Feature, point_feature, line_feature, build_geojson, concat_day_coords, same_point, flat,
}
use agentic_guide_system.Trips.Geojson.Merged.{
  IsLineOk, build_geojson-IsLineOk, concat_day_coords-any,
}
use agentic_guide_system.Trips.Saving.{
  save_from_state, schedule_usable, preferences_from_state, place_rows,
}
use agentic_guide_system.Trips.Saving.Values.{status_for, IsPreferred, AreRowsOf, stops_of}
use agentic_guide_system.Trips.Saving.Saved.{IsFresh, IsSaved, save_from_state-IsSaved}
use agentic_guide_system.Trips.Samples.{steady, close_by, store, trip, session}

abbrev is_ok : {A : Type 0} → Result TripError A × Session → Bool
is_ok (ok a, s) = true
is_ok (err e, s) = false

abbrev value_or : {A : Type 0} → A → Result TripError A × Session → A
value_or d (ok a, s) = a
value_or d (err e, s) = d

is_ok-value :
    {A : Type 0} (d : A) (out : Result TripError A × Session)
    → is_ok out ≡ true
    → out ≡ (ok (value_or d out), out.1)
is_ok-value d (ok a, s) h = refl
is_ok-value d (err e, s) h = cc

-- The stops of the first day swapped.
abbrev swapped : Result TripError LoadedTrip × Session
swapped = run_edit close_by steady (to_reorder (2 ∷ 1 ∷ [])) 50 1 7 session

abbrev swapped_trip : LoadedTrip
swapped_trip = value_or (load_places store trip) swapped

swapped-ok : is_ok swapped ≡ true
unfolding run_edit build_day_schedule validate_trip load_places get put legs_to_lookup
    check_morning_slots day_plan_from_scheduled check_daily_travel_cap check_no_repeat_places
    check_anchor_per_day has_anchor check_geo_coherence
swapped-ok = refl

swapped_lem :
    run_edit close_by steady (to_reorder (2 ∷ 1 ∷ [])) 50 1 7 session ≡ (ok swapped_trip, swapped.1)
swapped_lem = is_ok-value (load_places store trip) swapped swapped-ok

session-IsTable : IsTable session.current.trip_places
unfolding is_stop
session-IsTable = record {
  one_per_place = λ trip_id place_id. ground arith;
  one_per_id = λ id. ground arith;
}

run_edit-Settled_example :
    Settled session (run_edit close_by steady (to_reorder (2 ∷ 1 ∷ [])) 50 1 7 session)
run_edit-Settled_example =
    run_edit-Settled close_by steady (to_reorder (2 ∷ 1 ∷ [])) 50 1 7 session refl

run_edit-IsSound_example :
    IsSound close_by steady 50 1 7
      (requested_type (to_reorder (2 ∷ 1 ∷ [])))
      session
      swapped.1
      swapped_trip
run_edit-IsSound_example =
    run_edit-IsSound close_by steady (to_reorder (2 ∷ 1 ∷ [])) 50 1 7 session swapped_lem

run_edit-IsStored_example :
    (sound : IsSound close_by steady 50 1 7
      (requested_type (to_reorder (2 ∷ 1 ∷ [])))
      session
      swapped.1
      swapped_trip)
    × IsStored sound.edit session.current swapped.1.committed
    × AreNumbered
        (legs_to_lookup sound.edit.legs)
        1
        1
        base_sentinel_id
        sound.edit.scheduled
        (edit_rows sound.edit)
run_edit-IsStored_example =
    run_edit-IsStored close_by steady (to_reorder (2 ∷ 1 ∷ [])) 50 1 7 session session-IsTable
      swapped_lem

-- The unclaimed trip of another session.
abbrev claimed : Result TripError LoadedTrip × Session
claimed = claim_trip 51 8 "s2" session

claimed-ok : is_ok claimed ≡ true
unfolding claim_trip load_places
claimed-ok = refl

claimed_lem :
    claim_trip 51 8 "s2" session ≡ (ok (value_or (load_places store trip) claimed), claimed.1)
claimed_lem = is_ok-value (load_places store trip) claimed claimed-ok

assert_can_access-CanAccess_example :
    (assert_can_access trip (some 7) none ≡ ok tt) ↔ CanAccess trip (some 7) none
assert_can_access-CanAccess_example = assert_can_access-CanAccess trip (some 7) none

claim_trip-IsOwned_example : IsOwned 51 8 "s2" claimed.1
claim_trip-IsOwned_example = claim_trip-IsOwned 51 8 "s2" session claimed_lem

abbrev deleted : Result TripError (Unit {0}) × Session
deleted = soft_delete_for_user 50 7 none session

deleted-ok : is_ok deleted ≡ true
unfolding soft_delete_for_user load_places
deleted-ok = refl

soft_delete_for_user-IsGone_example :
    (deleted.1.committed ≡ deleted.1.current) × IsGone 50 deleted.1
soft_delete_for_user-IsGone_example =
    soft_delete_for_user-IsGone 50 7 none session (is_ok-value tt deleted deleted-ok)

decode_polyline-encode_polyline_example :
    decode_polyline (
      some (encode_polyline ((pos 3850000, negsuc 12019999) ∷ (pos 4070000, negsuc 12094999) ∷ [])))
    ≡ (pos 3850000, negsuc 12019999) ∷ (pos 4070000, negsuc 12094999) ∷ []
decode_polyline-encode_polyline_example =
    decode_polyline-encode_polyline
      ((pos 3850000, negsuc 12019999) ∷ (pos 4070000, negsuc 12094999) ∷ [])

-- The first two points of the encoding's documentation.
documented :
    decode_polyline (some (codes "_p~iF~ps|U_ulLnnqC"))
    ≡ (pos 3850000, negsuc 12019999) ∷ (pos 4070000, negsuc 12094999) ∷ []
unfolding decode_polyline
documented = refl

abbrev is_line : Feature → Bool
is_line (point_feature name day order start place_id id at) = false
is_line (line_feature day trip_id coords) = true

-- The trip with a way to its second stop.
abbrev drawn_stop : TripPlace
drawn_stop = record {
  id = 60;
  trip_id = 50;
  row = record {
    place_id = 1;
    day_number = 1;
    order_in_day = 1;
    travel_time_min = 20;
    visit_duration_min = 60;
    suggested_start_time = some (codes "08:20");
    arrival_note = none;
    polyline = some "_p~iF~ps|U_ulLnnqC";
  };
}

abbrev drawn_store : Store
drawn_store = record store { trip_places = drawn_stop ∷ [] }

abbrev drawn : LoadedTrip
drawn = load_places drawn_store trip

-- One of its features is a line with two points.
drawn_line : any is_line (build_geojson drawn) ≡ true
unfolding build_geojson load_places decode_polyline put get
drawn_line = refl

build_geojson-IsLineOk_example : All IsLineOk (build_geojson drawn)
build_geojson-IsLineOk_example = build_geojson-IsLineOk drawn

concat_day_coords-any_example :
    any (same_point (pos 1, pos 2)) (concat_day_coords (((pos 1, pos 2) ∷ []) ∷ []))
    ≡ any (same_point (pos 1, pos 2)) (flat (((pos 1, pos 2) ∷ []) ∷ []))
concat_day_coords-any_example = concat_day_coords-any (pos 1, pos 2) (((pos 1, pos 2) ∷ []) ∷ [])

abbrev planned : TravelState
planned = record (new_state wrap_up) { schedule = one_day }

fresh : IsFresh session.current
fresh = record {
  trips = (omega arith, (omega arith, tt));
  stops = (omega arith, (omega arith, (omega arith, tt)));
}

distinct : HasDistinctPlaces (place_rows planned.schedule)
unfolding place_rows find_by
distinct = (refl, tt)

usable : schedule_usable planned.schedule ≡ true
unfolding schedule_usable
usable = refl

save_from_state-IsSaved_example :
    (t : Trip) × (s' : Session) × (save_from_state
        (λ s. none)
        planned
        9
        null
        null
        (some 7)
        "s9"
        session
      ≡ (ok (some t), s'))
    × IsSaved
        (some 7)
        "s9"
        9
        (length planned.schedule)
        (preferences_from_state (λ s. none) planned null null)
        (status_for planned.plan_complete planned.abort_triggered)
        (place_rows planned.schedule)
        session
        s'
        t
    × IsPreferred (λ s. none) planned null null t.preferences
    × AreRowsOf (stops_of planned.schedule) (place_rows planned.schedule)
save_from_state-IsSaved_example =
    save_from_state-IsSaved (λ s. none) planned 9 null null (some 7) "s9" session fresh distinct
      usable
