-- ===== src/Trips/Geojson.antt =====
-- src/trips/service.py: the GeoJSON of a loaded trip. Points are pairs of latitude and longitude here,
-- and the source's lists swap them.
pub mod Merged
use Prim.Native.Nat.{compare}
use agentic_guide_system.Prelude.{
  ℕ, String, Option, none, some, Bool, true, false, ◌&&◌, List, [], ◌∷◌, ◌++◌, ◌==◌, is_empty,
  length, ltb, if◌then◌else◌,
}
use agentic_guide_system.Prelude.Dict.{Dict, get, put, nat_eq}
use agentic_guide_system.Prelude.Int.{ℤ, pos, negsuc}
use agentic_guide_system.Prelude.Order.{at_most, codes}
use agentic_guide_system.Prelude.Sort.{sort_by}
use agentic_guide_system.Trips.{LoadedStop, LoadedTrip, Place}
use agentic_guide_system.Trips.Repository.{before_in_trip}
use agentic_guide_system.Trips.Polyline.{decode_polyline}

abbrev pub Point : Type 0
Point = ℤ × ℤ

pub data Feature : Type 0 where
  -- name, day, order, start time, place, stop and coordinates
  point_feature : String → ℕ → ℕ → Option (List ℕ) → ℕ → ℕ → Point → Feature
  -- day, trip and coordinates
  line_feature : ℕ → ℕ → List Point → Feature

abbrev same_int : ℤ → ℤ → Bool
same_int (pos m) (pos n) = m == n
same_int (negsuc m) (negsuc n) = m == n
same_int _ _ = false

abbrev pub same_point : Point → Point → Bool
same_point p q = same_int p.0 q.0 && same_int p.1 q.1

abbrev pub is_last : Option Point → Point → Bool
is_last none p = false
is_last (some q) p = same_point q p

abbrev pub flat : List (List Point) → List Point
flat [] = []
flat (coords ∷ legs) = coords ++ flat legs

-- The two loops over the points; `last` is `merged[-1]`.
unfoldable pub merge_from : Option Point → List Point → List Point
merge_from last [] = []
merge_from last (p ∷ points) =
    let skip = merge_from last points in
    let take_it = merge_from (some p) points in if is_last last p then skip else p ∷ take_it

unfoldable pub concat_day_coords : List (List Point) → List Point
unfolding merge_from
concat_day_coords legs = merge_from none (flat legs)

abbrev pub place_features : LoadedStop → Option Place → List Feature
place_features tp none = []
place_features tp (some place) =
    point_feature place.name tp.stop.row.day_number tp.stop.row.order_in_day
      tp.stop.row.suggested_start_time tp.stop.row.place_id tp.stop.id (place.lat, place.lng)
    ∷ []

abbrev encoded : Option String → Option (List ℕ)
encoded none = none
encoded (some s) = some (codes s)

abbrev legs_or_empty : Option (List (List Point)) → List (List Point)
legs_or_empty none = []
legs_or_empty (some legs) = legs

-- `if decoded: day_legs[tp.day_number].append(decoded)`
unfoldable pub add_leg : Dict ℕ (List (List Point)) → LoadedStop → Dict ℕ (List (List Point))
unfolding decode_polyline
add_leg day_legs tp =
    let day = tp.stop.row.day_number in
    let decoded = decode_polyline (encoded tp.stop.row.polyline) in
    if is_empty decoded
    then day_legs
    else put day_legs day (legs_or_empty (get day_legs day) ++ decoded ∷ [])

-- The loop over the stops: its features, and the legs of each day.
unfoldable pub point_features : List LoadedStop → List Feature
point_features [] = []
point_features (tp ∷ places) = place_features tp tp.place ++ point_features places

unfoldable pub collect_legs :
    Dict ℕ (List (List Point)) → List LoadedStop → Dict ℕ (List (List Point))
unfolding add_leg
collect_legs day_legs [] = day_legs
collect_legs day_legs (tp ∷ places) = collect_legs (add_leg day_legs tp) places

-- The loop over the days.
unfoldable pub line_features : ℕ → Dict ℕ (List (List Point)) → List Feature
unfolding concat_day_coords
line_features trip_id [] = []
line_features trip_id ((day, legs) ∷ days) =
    let coords = concat_day_coords legs in
    let more = line_features trip_id days in
    if ltb (length coords) 2 then more else line_feature day trip_id coords ∷ more

abbrev by_day : ℕ × List (List Point) → ℕ × List (List Point) → Bool
by_day a b = at_most (compare a.0 b.0)

abbrev by_visit : LoadedStop → LoadedStop → Bool
by_visit a b = before_in_trip a.stop b.stop

unfoldable pub build_geojson : LoadedTrip → List Feature
unfolding sort_by point_features collect_legs line_features
build_geojson trip =
    let places = sort_by by_visit trip.places in
    point_features places ++ line_features trip.trip.id (sort_by by_day (collect_legs [] places))
