-- ===== src/Core/RateLimit.antt =====
-- src/core/middleware/rate_limit.py: the in-memory sliding window, the table of limits, and what the
-- middleware decides. The time of `time.monotonic()` is an argument, in ticks.
pub mod Window
pub mod Bound
pub mod Tests
use agentic_guide_system.Prelude.{
  ℕ, ◌+◌, ◌-◌, String, Option, none, some, Bool, true, false, not, List, [], ◌∷◌, ◌++◌, keep,
  length, is_empty, leb, ltb, str_eq, if◌then◌else◌,
}
use agentic_guide_system.Prelude.Dict.{Dict, get, put, string_eq}
use agentic_guide_system.Prelude.Dict.Keys.{keep_values}

-- The times of the requests that were let through, by key.
abbrev pub Windows : Type 0
Windows = Dict String (List ℕ)

-- self._windows[key], of a defaultdict
abbrev pub or_nil : Option (List ℕ) → List ℕ
or_nil none = []
or_nil (some times) = times

unfoldable pub window_of : Windows → String → List ℕ
window_of windows key = or_nil (get windows key)

-- `t > now - window`
unfoldable pub is_recent : ℕ → ℕ → ℕ → Bool
is_recent now window t = ltb now (t + window)

-- What is_allowed returns: the answer, the requests that remain, and the windows after it.
pub record Verdict : Type 0 where
  pub allowed : Bool
  pub remaining : ℕ
  pub windows : Windows

-- The windows with the old times of the key dropped, and then without the keys that have no time.
unfoldable pub prune : Windows → String → ℕ → ℕ → Windows
prune windows key window now =
    keep_values (λ times. not (is_empty times))
      (put windows key (keep (is_recent now window) (window_of windows key)))

-- `InMemoryRateLimiter.is_allowed`. The lookup after the pruning creates an empty list where the key
-- was pruned.
unfoldable pub is_allowed : Windows → String → ℕ → ℕ → ℕ → Verdict
is_allowed windows key limit window now =
    let pruned = prune windows key window now in
    let times = window_of pruned key in
    let count = length times in
    if leb limit count
    then record { allowed = false; remaining = 0; windows = put pruned key times }
    else record {
      allowed = true;
      remaining = limit - count - 1;
      windows = put pruned key (times ++ now ∷ []);
    }

-- One row of the route table: path, limit and window.
pub record Rule : Type 0 where
  pub path : String
  pub limit : ℕ
  pub window : ℕ

-- `_resolve_limits`, with the table and the default as arguments.
unfoldable pub resolve_limits : List Rule → ℕ × ℕ → String → ℕ × ℕ
resolve_limits [] default path = default
resolve_limits (rule ∷ rules) default path =
    let rest = resolve_limits rules default path in
    if str_eq path rule.path then (rule.limit, rule.window) else rest

-- What the middleware does with a request: it answers 429, or it lets the request through with a
-- header for what remains, or with none where the limiter failed.
pub data Decision : Type 0 where
  too_many_requests : ℕ → ℕ → Decision
  passed : ℕ → Option ℕ → Decision

-- `dispatch`, for the verdict of the limiter or none where it raised.
unfoldable pub dispatch : ℕ × ℕ → Option Verdict → Decision
dispatch (limit, window) none = passed limit none
dispatch (limit, window) (some verdict) =
    if verdict.allowed
    then passed limit (some verdict.remaining)
    else too_many_requests limit window
