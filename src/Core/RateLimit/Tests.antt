-- ===== src/Core/RateLimit/Tests.antt =====
-- Three requests against a limit of two.
use agentic_guide_system.Prelude.{ℕ, ◌≤◌, ◌≡◌, refl, String, List, [], ◌∷◌, count_by, arith}
use agentic_guide_system.Prelude.Dict.{get, put, string_eq}
use agentic_guide_system.Core.RateLimit.{Windows, window_of, is_recent, prune, is_allowed}
use agentic_guide_system.Core.RateLimit.Window.{IsServed, is_allowed-IsServed}
use agentic_guide_system.Core.RateLimit.Bound.{admitted, in_window, admitted-le-limit}

abbrev requests : List (String × ℕ)
requests = ("a", 100) ∷ ("b", 101) ∷ ("a", 130) ∷ ("a", 140) ∷ ("a", 161) ∷ []

abbrev held : Windows
held = ("a", 100 ∷ 130 ∷ []) ∷ ("b", 101 ∷ []) ∷ []

admitted-requests : admitted "a" 2 60 [] requests ≡ 100 ∷ 130 ∷ 161 ∷ []
unfolding admitted is_allowed prune window_of is_recent get put
admitted-requests = refl

is_allowed-IsServed_example : IsServed held "a" 2 60 140 (is_allowed held "a" 2 60 140)
unfolding get
is_allowed-IsServed_example = is_allowed-IsServed held "a" 2 60 140 (refl, (refl, tt))

admitted-le-limit_example : count_by (in_window 60 140) (admitted "a" 2 60 [] requests) ≤ 2
admitted-le-limit_example =
    admitted-le-limit "a" 2 60 requests
      (omega arith, (omega arith, (omega arith, (omega arith, (omega arith, tt))))) 140
