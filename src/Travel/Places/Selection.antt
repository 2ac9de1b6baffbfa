-- ===== src/Travel/Places/Selection.antt =====
-- What `select_places` (src/travel_engine/place_selector.py) keeps of its candidates.
use mathlib.Core.List.{append-nil, append_assoc}
use agentic_guide_system.Prelude.{
  ◌≤◌, ◌≡◌, refl, sym, ap, ◌∙◌, ◌==◌, inl, inr, Bool, true, false, ◌&&◌, ◌||◌, not, List, [], ◌∷◌,
  ◌++◌, map, any, any-append, count_by, arith, str_eq, if◌then◌else◌, Bool-cases,
}
use agentic_guide_system.Prelude.Order.{
  compare-IsComparison, compare_text-IsComparison, and_then-IsComparison, on-IsComparison,
  down-IsComparison, at_most-IsTotalPreorder,
}
use agentic_guide_system.Prelude.Sort.{
  sort_by, AllAbove, Sorted, IsTotalPreorder, sort_by-Sorted, count_by-sort_by,
}
use agentic_guide_system.Travel.Places.{
  PlaceCandidate, TripPreferences, ScoredPlace, categories_conflict, conflicts_with_kept, rank_leb,
  score_candidate, keep_compatible, select_places,
}

abbrev pub is_monastery : ScoredPlace → Bool
is_monastery s = str_eq s.place.category "monastery"

-- A reference: the list without the monasteries that follow a first one.
abbrev pub without_later_monasteries : Bool → List ScoredPlace → List ScoredPlace
without_later_monasteries seen [] = []
without_later_monasteries seen (x ∷ xs) =
    let rest = without_later_monasteries (seen || is_monastery x) xs in
    if is_monastery x && seen then rest else x ∷ rest

any-monastery-and :
    (b : Bool) (kept : List ScoredPlace)
    → any (λ s. b && is_monastery s || false) kept ≡ (b && any is_monastery kept)
any-monastery-and b [] = ground arith
any-monastery-and b (s ∷ kept) = ground (arith, any-monastery-and b kept)

conflicts-eq :
    (x : ScoredPlace) (kept : List ScoredPlace)
    → conflicts_with_kept x.place.category kept ≡ (is_monastery x && any is_monastery kept)
unfolding conflicts_with_kept categories_conflict
conflicts-eq x kept = any-monastery-and (is_monastery x) kept

any-snoc :
    (kept : List ScoredPlace) (x : ScoredPlace)
    → any is_monastery (kept ++ x ∷ []) ≡ (any is_monastery kept || is_monastery x)
any-snoc kept x = ground (arith, any-append is_monastery kept (x ∷ []))

absorb : (a b : Bool) → (a && b) ≡ true → (b || a) ≡ b
absorb a b h = ground arith

keep_compatible-eq :
    (kept xs : List ScoredPlace)
    → keep_compatible kept xs ≡ kept ++ without_later_monasteries (any is_monastery kept) xs
unfolding keep_compatible
keep_compatible-eq kept [] = rw append-nil
keep_compatible-eq kept (x ∷ xs) = elim (Bool-cases (is_monastery x && any is_monastery kept)) [
  | inl e ↦
      rw (conflicts-eq x kept, e)
        (rw (absorb (is_monastery x) (any is_monastery kept) e) (keep_compatible-eq kept xs))
  | inr e ↦
      rw (conflicts-eq x kept, e)
        (ground (
          arith,
          keep_compatible-eq (kept ++ x ∷ []) xs,
          any-snoc kept x,
          append_assoc kept (x ∷ [])
              (without_later_monasteries (any is_monastery kept || is_monastery x) xs),
        ))
]

-- `select_places` returns the ranked candidates, in their order, without exactly those monasteries
-- that a better ranked monastery precedes.
pub select_places-eq :
    (candidates : List PlaceCandidate) (preferences : TripPreferences)
    → select_places candidates preferences
      ≡ without_later_monasteries false
          (sort_by rank_leb (map (score_candidate preferences) candidates))
unfolding select_places
select_places-eq candidates preferences = keep_compatible-eq [] _

seen_none : (xs : List ScoredPlace) → count_by is_monastery (without_later_monasteries true xs) ≡ 0
seen_none [] = refl
seen_none (x ∷ xs) = ground (arith, seen_none xs)

first_only :
    (xs : List ScoredPlace) → count_by is_monastery (without_later_monasteries false xs) ≤ 1
first_only [] = omega arith
first_only (x ∷ xs) = ground (arith, seen_none xs, first_only xs)

others_kept :
    (p : ScoredPlace → Bool) (seen : Bool) (xs : List ScoredPlace)
    → count_by (λ s. not (is_monastery s) && p s) (without_later_monasteries seen xs)
      ≡ count_by (λ s. not (is_monastery s) && p s) xs
others_kept p seen [] = refl
others_kept p seen (x ∷ xs) = ground (arith, others_kept p (seen || is_monastery x) xs)

some_kept :
    (xs : List ScoredPlace)
    → any is_monastery (without_later_monasteries false xs) ≡ any is_monastery xs
some_kept [] = refl
some_kept (x ∷ xs) = ground (arith, some_kept xs)

any-count : (p : ScoredPlace → Bool) (xs : List ScoredPlace) → any p xs ≡ not (count_by p xs == 0)
any-count p [] = ground arith
any-count p (x ∷ xs) = ground (arith, any-count p xs)

rank_leb-IsTotalPreorder : IsTotalPreorder rank_leb
unfolding rank_leb
rank_leb-IsTotalPreorder = at_most-IsTotalPreorder (
    and_then-IsComparison (down-IsComparison (on-IsComparison (λ s. s.score) compare-IsComparison))
      (and_then-IsComparison (on-IsComparison (λ s. s.place.name) compare_text-IsComparison)
        (on-IsComparison (λ s. s.place.id) compare-IsComparison)))

AllAbove-without :
    (y : ScoredPlace) (seen : Bool) (xs : List ScoredPlace)
    → AllAbove rank_leb y xs
    → AllAbove rank_leb y (without_later_monasteries seen xs)
AllAbove-without y seen [] h = tt
AllAbove-without y seen (x ∷ xs) h = elim (Bool-cases (is_monastery x && seen)) [
  | inl e ↦ rw e (AllAbove-without y (seen || is_monastery x) xs h.1)
  | inr e ↦ rw e (h.0, AllAbove-without y (seen || is_monastery x) xs h.1)
]

Sorted-without :
    (seen : Bool) (xs : List ScoredPlace)
    → Sorted rank_leb xs
    → Sorted rank_leb (without_later_monasteries seen xs)
Sorted-without seen [] h = tt
Sorted-without seen (x ∷ xs) h = elim (Bool-cases (is_monastery x && seen)) [
  | inl e ↦ rw e (Sorted-without (seen || is_monastery x) xs h.1)
  | inr e ↦ rw e (
    AllAbove-without x (seen || is_monastery x) xs h.0,
    Sorted-without (seen || is_monastery x) xs h.1,
  )
]

-- The selection is sorted by descending score, then name, then id, it holds at most one monastery,
-- and one where the candidates have some. Of the places that are no monasteries it holds exactly the
-- candidates, scored: as many of them with any property.
pub select_places-Sorted :
    (candidates : List PlaceCandidate) (preferences : TripPreferences)
    → Sorted rank_leb (select_places candidates preferences)
      × (count_by is_monastery (select_places candidates preferences) ≤ 1)
      × (any is_monastery (select_places candidates preferences)
          ≡ any is_monastery (map (score_candidate preferences) candidates))
      × ((p : ScoredPlace → Bool)
          → count_by (λ s. not (is_monastery s) && p s) (select_places candidates preferences)
            ≡ count_by
                (λ s. not (is_monastery s) && p s)
                (map (score_candidate preferences) candidates))
select_places-Sorted candidates preferences =
    let scored = map (score_candidate preferences) candidates in
    let ranked = sort_by rank_leb scored in
    rw (select_places-eq candidates preferences) (
      Sorted-without false ranked (sort_by-Sorted rank_leb rank_leb-IsTotalPreorder _),
      first_only ranked,
      some_kept ranked
          ∙ any-count is_monastery ranked
          ∙ ap (λ n. not (n == 0)) (count_by-sort_by rank_leb is_monastery scored)
          ∙ sym (any-count is_monastery scored),
      λ p.
          others_kept p false ranked
          ∙ count_by-sort_by rank_leb (λ s. not (is_monastery s) && p s) scored,
    )
