-- ===== src/Travel/Places.antt =====
-- src/travel_engine/place_selector.py: scoring, sorting and filtering the candidates.
-- `places` are the records that pydantic validates; a UUID is the number that its digits spell.
pub mod Selection
pub mod Tests
use Prim.Native.Nat.{compare, Ordering}
use agentic_guide_system.Prelude.{
  ℕ, ◌+◌, String, Option, none, some, Bool, true, false, ◌&&◌, ◌||◌, List, [], ◌∷◌, ◌++◌, map, any,
  sum_by, str_eq, if◌then◌else◌,
}
use agentic_guide_system.Prelude.Dict.{Dict, get, put, string_eq}
use agentic_guide_system.Prelude.Int.{ℤ}
use agentic_guide_system.Prelude.Order.{and_then, at_most, compare_text}
use agentic_guide_system.Prelude.Sort.{sort_by}
use agentic_guide_system.Travel.Rules.{category_weights, avoid_same_day_pairs}

-- Coordinates are handed on to the distance functions and nowhere computed with.
pub record PlaceCandidate : Type 0 where
  pub id : ℕ
  pub name : String
  pub category : String
  pub enriched_tags : List String
  pub lat : ℤ
  pub lng : ℤ

pub record TripPreferences : Type 0 where
  pub interests : List String
  pub budget : Option String
  pub days : ℤ

pub record ScoredPlace : Type 0 where
  pub place : PlaceCandidate
  pub score : ℕ
  pub score_breakdown : Dict String ℕ

-- x in xs
abbrev pub contains : List String → String → Bool
contains xs x = any (λ y. str_eq y x) xs

-- `if tag in CATEGORY_WEIGHTS and tag in interest_set: breakdown[tag] = CATEGORY_WEIGHTS[tag]`
weigh : List String → Dict String ℕ → String → Option ℕ → Dict String ℕ
weigh interests breakdown tag none = breakdown
weigh interests breakdown tag (some w) =
    if contains interests tag then put breakdown tag w else breakdown

-- The loop of `score_place` over the tags.
breakdown_from : List String → Dict String ℕ → List String → Dict String ℕ
unfolding weigh get
breakdown_from interests breakdown [] = breakdown
breakdown_from interests breakdown (tag ∷ tags) =
    breakdown_from interests (weigh interests breakdown tag (get category_weights tag)) tags

unfoldable pub score_place : PlaceCandidate → List String → ℕ × Dict String ℕ
unfolding breakdown_from
score_place place interests =
    let breakdown = breakdown_from interests [] place.enriched_tags in
    (sum_by (λ entry. entry.1) breakdown, breakdown)

-- One pair of AVOID_SAME_DAY_PAIRS, unordered.
abbrev pair_conflict : String → String → String × String → Bool
pair_conflict cat_a cat_b pair =
    if str_eq pair.0 pair.1
    then str_eq cat_a pair.0 && str_eq cat_b pair.0
    else (str_eq cat_a pair.0 && str_eq cat_b pair.1)
      || (str_eq cat_a pair.1 && str_eq cat_b pair.0)

unfoldable pub categories_conflict : String → String → Bool
categories_conflict cat_a cat_b = any (pair_conflict cat_a cat_b) avoid_same_day_pairs

unfoldable pub conflicts_with_kept : String → List ScoredPlace → Bool
conflicts_with_kept category kept = any (λ s. categories_conflict category s.place.category) kept

-- The key `(-score, name, str(id))`.
abbrev pub compare_rank : ScoredPlace → ScoredPlace → Ordering
compare_rank s t =
    and_then (compare t.score s.score)
      (and_then (compare_text s.place.name t.place.name) (compare s.place.id t.place.id))

unfoldable pub rank_leb : ScoredPlace → ScoredPlace → Bool
rank_leb s t = at_most (compare_rank s t)

unfoldable pub score_candidate : TripPreferences → PlaceCandidate → ScoredPlace
unfolding score_place
score_candidate preferences place =
    let (total, breakdown) = score_place place preferences.interests in
    record { place = place; score = total; score_breakdown = breakdown }

-- The loop that keeps what does not conflict with anything kept before it.
unfoldable pub keep_compatible : List ScoredPlace → List ScoredPlace → List ScoredPlace
keep_compatible kept [] = kept
keep_compatible kept (item ∷ rest) =
    keep_compatible
      (if conflicts_with_kept item.place.category kept then kept else kept ++ item ∷ []) rest

unfoldable pub select_places : List PlaceCandidate → TripPreferences → List ScoredPlace
select_places candidates preferences =
    keep_compatible [] (sort_by rank_leb (map (score_candidate preferences) candidates))
