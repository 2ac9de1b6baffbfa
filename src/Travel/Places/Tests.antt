-- ===== src/Travel/Places/Tests.antt =====
-- The selection of a list with two monasteries.
use agentic_guide_system.Prelude.{
  false, ◌≤◌, ◌≡◌, refl, [], ◌∷◌, map, not, count_by, ◌&&◌, Bool, any,
}
use agentic_guide_system.Prelude.Sort.{sort_by, Sorted}
use agentic_guide_system.Prelude.Dict.{put}
use agentic_guide_system.Prelude.Order.{compare_text}
use agentic_guide_system.Travel.Samples.{candidates, preferences}
use agentic_guide_system.Travel.Places.{
  ScoredPlace, select_places, rank_leb, score_candidate, keep_compatible, conflicts_with_kept,
  categories_conflict,
}
use agentic_guide_system.Travel.Places.Selection.{
  is_monastery, without_later_monasteries, select_places-eq, select_places-Sorted,
}

select_places_names :
    map (λ s. s.place.name) (select_places candidates preferences)
    ≡ "Tashi" ∷ "Enchey" ∷ "Baker" ∷ []
unfolding select_places keep_compatible sort_by rank_leb score_candidate put compare_text
    conflicts_with_kept categories_conflict
select_places_names = refl

select_places-eq_example :
    select_places candidates preferences
    ≡ without_later_monasteries false
        (sort_by rank_leb (map (score_candidate preferences) candidates))
select_places-eq_example = select_places-eq candidates preferences

select_places-Sorted_example :
    Sorted rank_leb (select_places candidates preferences)
    × (count_by is_monastery (select_places candidates preferences) ≤ 1)
    × (any is_monastery (select_places candidates preferences)
        ≡ any is_monastery (map (score_candidate preferences) candidates))
    × ((p : ScoredPlace → Bool)
        → count_by (λ s. not (is_monastery s) && p s) (select_places candidates preferences)
          ≡ count_by
              (λ s. not (is_monastery s) && p s)
              (map (score_candidate preferences) candidates))
select_places-Sorted_example = select_places-Sorted candidates preferences
