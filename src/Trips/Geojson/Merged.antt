-- ===== src/Trips/Geojson/Merged.antt =====
-- src/trips/service.py: the lines of a trip's GeoJSON.
use agentic_guide_system.Prelude.{
  ℕ, ◌≤◌, ◌≡◌, refl, ap, ◌∙◌, inl, inr, Option, none, some, Bool, true, false, ◌||◌, List, [], ◌∷◌,
  any, All, All-append, length, ltb, arith, Bool-cases, &&-eq-true, ==_iff, if_cases,
}
use agentic_guide_system.Prelude.Dict.{Dict}
use agentic_guide_system.Prelude.Int.{ℤ, pos, negsuc}
use agentic_guide_system.Prelude.Sort.{sort_by}
use agentic_guide_system.Trips.{LoadedStop, LoadedTrip, Place}
use agentic_guide_system.Trips.Geojson.{
  Point, Feature, point_feature, line_feature, same_point, is_last, flat, merge_from,
  concat_day_coords, place_features, point_features, line_features, collect_legs, build_geojson,
  by_visit, by_day, same_int,
}

-- No point is followed by itself; the first one differs from the point before.
abbrev HasNoStutter : Option Point → List Point → Type 0
HasNoStutter last [] = Unit
HasNoStutter last (p ∷ points) = (is_last last p ≡ false) × HasNoStutter (some p) points

merge_from-HasNoStutter :
    (last : Option Point) (points : List Point) → HasNoStutter last (merge_from last points)
unfolding merge_from
merge_from-HasNoStutter last [] = tt
merge_from-HasNoStutter last (p ∷ points) =
    if_cases (HasNoStutter last) (is_last last p) (λ same. merge_from-HasNoStutter last points)
      (λ other. (other, merge_from-HasNoStutter (some p) points))

-- A line has two points at least and does not stutter.
abbrev pub IsLineOk : Feature → Type 0
IsLineOk (point_feature name day order start place_id id at) = Unit
IsLineOk (line_feature day trip_id coords) = (2 ≤ length coords) × HasNoStutter none coords

line_features-IsLineOk :
    (trip_id : ℕ) (days : Dict ℕ (List (List Point))) → All IsLineOk (line_features trip_id days)
unfolding line_features concat_day_coords
line_features-IsLineOk trip_id [] = tt
line_features-IsLineOk trip_id ((day, legs) ∷ days) =
    let rest = line_features-IsLineOk trip_id days in
    let coords = merge_from none (flat legs) in
    if_cases (All IsLineOk) (ltb (length coords) 2) (λ short. rest)
      (λ enough. ((ground arith, merge_from-HasNoStutter none (flat legs)), rest))

point_features-IsLineOk : (places : List LoadedStop) → All IsLineOk (point_features places)
unfolding point_features
point_features-IsLineOk [] = tt
point_features-IsLineOk (tp ∷ places) =
    All-append IsLineOk _ _ (of_place tp.place) (point_features-IsLineOk places)
  where
    of_place : (place : Option Place) → All IsLineOk (place_features tp place)
    of_place none = tt
    of_place (some place) = (tt, tt)

-- Every line in the GeoJSON of a trip has two points at least, and no point is followed by itself.
pub build_geojson-IsLineOk : (trip : LoadedTrip) → All IsLineOk (build_geojson trip)
unfolding build_geojson
build_geojson-IsLineOk trip =
    let places = sort_by by_visit trip.places in
    let days = sort_by by_day (collect_legs [] places) in
    All-append IsLineOk (point_features places) (line_features trip.trip.id days)
      (point_features-IsLineOk places) (line_features-IsLineOk trip.trip.id days)

same_int-eq : (a b : ℤ) → same_int a b ≡ true → a ≡ b
same_int-eq (pos m) (pos n) h = ap pos ((==_iff m n).0 h)
same_int-eq (pos m) (negsuc n) h = cc
same_int-eq (negsuc m) (pos n) h = cc
same_int-eq (negsuc m) (negsuc n) h = ap negsuc ((==_iff m n).0 h)

same_point-eq : (p q : Point) → same_point p q ≡ true → p ≡ q
same_point-eq p q h =
    let (lat, lng) = &&-eq-true (same_int p.0 q.0) (same_int p.1 q.1) h in
    ap (λ (x : ℤ). (x, p.1)) (same_int-eq p.0 q.0 lat)
    ∙ ap (λ (y : ℤ). (q.0, y)) (same_int-eq p.1 q.1 lng)

merge_from-any :
    (q before : Point) (points : List Point)
    → (any (same_point q) (merge_from (some before) points) || same_point q before)
      ≡ (any (same_point q) points || same_point q before)
unfolding merge_from
merge_from-any q before [] = refl
merge_from-any q before (p ∷ points) = elim (Bool-cases (same_point before p)) [
  | inl same ↦
      let twice = ap (same_point q) (same_point-eq before p same) in
      rw same (
        absorb (any (same_point q) (merge_from (some before) points)) (any (same_point q) points)
          (same_point q p) (same_point q before) (merge_from-any q before points) twice)
  | inr other ↦ rw other (
      spread (any (same_point q) (merge_from (some p) points)) (any (same_point q) points)
        (same_point q p) (same_point q before) (merge_from-any q p points))
]
  where
    absorb :
        (merged all here last_ : Bool)
        → (merged || last_) ≡ (all || last_)
        → last_ ≡ here
        → (merged || last_) ≡ ((here || all) || last_)
    absorb merged all here last_ h e = ground arith

    spread :
        (merged all here last_ : Bool)
        → (merged || here) ≡ (all || here)
        → ((here || merged) || last_) ≡ ((here || all) || last_)
    spread merged all here last_ h = ground arith

-- A point lies on the merged line of a day exactly where it lies on one of the day's legs.
pub concat_day_coords-any :
    (q : Point) (legs : List (List Point))
    → any (same_point q) (concat_day_coords legs) ≡ any (same_point q) (flat legs)
unfolding concat_day_coords merge_from
concat_day_coords-any q legs = first (flat legs)
  where
    turned :
        (merged all here : Bool)
        → (merged || here) ≡ (all || here)
        → (here || merged) ≡ (here || all)
    turned merged all here h = ground arith

    first :
        (points : List Point)
        → any (same_point q) (merge_from none points) ≡ any (same_point q) points
    first [] = refl
    first (p ∷ points) = turned _ _ (same_point q p) (merge_from-any q p points)
