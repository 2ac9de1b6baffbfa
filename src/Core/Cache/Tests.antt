-- ===== src/Core/Cache/Tests.antt =====
-- A value that lives for ten ticks, beside an older one.
use agentic_guide_system.Prelude.{◌≡◌, refl, none, some, [], ◌∷◌, arith}
use agentic_guide_system.Prelude.Dict.{get, string_eq}
use agentic_guide_system.Core.Cache.{Store, cache_get, cache_set}
use agentic_guide_system.Core.Cache.Expiry.{answer, cache_get-cache_set}

abbrev store : Store
store = ("old", ("first", 105)) ∷ []

expired_store : cache_get store "old" 105 ≡ (none, [])
unfolding cache_get get
expired_store = refl

cache_get-cache_set_example :
    answer (cache_set store "new" "second" 10 100 100) "new" 109 ≡ some "second"
unfolding get
cache_get-cache_set_example =
    cache_get-cache_set store "new" "new" "second" 10 100 100 109 (refl, tt) (omega arith)
