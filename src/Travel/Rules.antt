-- ===== src/Travel/Rules.antt =====
-- src/travel_engine/travel_rules.py: the constants and the two vocabularies.
-- A weight or a score is a number of tenths (1.4 is 14), and a distance a number of metres.
use agentic_guide_system.Prelude.{ℕ, ◌*◌, ◌-◌, String, Option, none, some, List, [], ◌∷◌}
use agentic_guide_system.Prelude.Dict.{Dict, get, string_eq}

abbrev pub max_places_per_day : ℕ
max_places_per_day = 6

abbrev pub min_travel_buffer_min : ℕ
min_travel_buffer_min = 30

abbrev pub max_daily_travel_min : ℕ
max_daily_travel_min = 180

abbrev pub day_start_time : String
day_start_time = "08:00"

abbrev pub lunch_break_start : String
lunch_break_start = "13:00"

abbrev pub lunch_break_min : ℕ
lunch_break_min = 60

abbrev pub morning_slot_latest_start : String
morning_slot_latest_start = "10:30"

abbrev pub active_day_visit_budget_min : ℕ
active_day_visit_budget_min = 8 * 60 - min_travel_buffer_min

abbrev pub cluster_radius_m : ℕ
cluster_radius_m = 10000

abbrev pub geo_coherence_max_stddev_m : ℕ
geo_coherence_max_stddev_m = 15000

abbrev pub anchor_min_score : ℕ
anchor_min_score = 7

abbrev pub max_route_drop_attempts : ℕ
max_route_drop_attempts = max_places_per_day - 1

-- The all-zero UUID that stands for the base.
abbrev pub base_sentinel_id : ℕ
base_sentinel_id = 0

abbrev pub visit_duration_by_category : Dict String ℕ
visit_duration_by_category =
    ("monastery", 45)
    ∷ ("viewpoint", 20)
    ∷ ("museum", 60)
    ∷ ("park", 30)
    ∷ ("trailhead", 90)
    ∷ ("attraction", 40)
    ∷ ("cafe", 30)
    ∷ ("restaurant", 60)
    ∷ ("temple", 40)
    ∷ ("historic", 40)
    ∷ ("nature", 45)
    ∷ []

abbrev pub visit_duration_default_min : ℕ
visit_duration_default_min = 30

abbrev pub morning_only_categories : List String
morning_only_categories = "viewpoint" ∷ []

abbrev pub avoid_same_day_pairs : List (String × String)
avoid_same_day_pairs = ("monastery", "monastery") ∷ []

abbrev pub category_weights : Dict String ℕ
category_weights =
    ("photography", 14)
    ∷ ("offbeat", 13)
    ∷ ("viewpoint", 12)
    ∷ ("trek", 11)
    ∷ ("cultural", 10)
    ∷ ("family", 9)
    ∷ ("monastery", 10)
    ∷ ("nature", 11)
    ∷ ("adventure", 12)
    ∷ []

-- d.get(k, default)
or_default : Option ℕ → ℕ → ℕ
or_default none d = d
or_default (some v) d = v

unfoldable pub visit_duration_min : String → ℕ
unfolding or_default get
visit_duration_min category =
    or_default (get visit_duration_by_category category) visit_duration_default_min
