-- ===== src/Core/RateLimit/Window.antt =====
-- src/core/middleware/rate_limit.py: the limiter never lets more requests through than the limit in
-- one window.
use agentic_guide_system.Prelude.{
  ℕ, ◌≡◌, refl, sym, ap, ◌∙◌, String, Option, none, some, Bool, true, false, not, List, [], ◌∷◌,
  ◌++◌, keep, length, is_empty, leb, ltb, str_eq, if◌then◌else◌, arith, if_cases,
}
use agentic_guide_system.Prelude.Dict.{get, put, get-put, string_eq}
use agentic_guide_system.Prelude.Dict.Keys.{
  keep_some, HasDistinctKeys, get-keep_values, keep_values-HasDistinctKeys, put-HasDistinctKeys,
}
use mathlib.Core.List.{append-nil}
use text.Mathlib.TextEquality.{eq_iff}
use agentic_guide_system.Core.RateLimit.{
  Windows, Verdict, or_nil, window_of, is_recent, prune, is_allowed,
}

-- Dropping the empty windows changes no window.
or_nil-keep :
    (times : Option (List ℕ)) → or_nil (keep_some (λ ts. not (is_empty ts)) times) ≡ or_nil times
or_nil-keep none = refl
or_nil-keep (some []) = refl
or_nil-keep (some (t ∷ ts)) = refl

or_nil-if :
    (b : Bool) (times : List ℕ) (o : Option (List ℕ))
    → or_nil (if b then some times else o) ≡ (if b then times else or_nil o)
or_nil-if true times o = refl
or_nil-if false times o = refl

window_of-put :
    (windows : Windows) (key other : String) (times : List ℕ)
    → window_of (put windows key times) other
      ≡ (if str_eq key other then times else window_of windows other)
unfolding window_of
window_of-put windows key other times =
    ap or_nil (get-put windows key other times)
    ∙ or_nil-if (str_eq key other) times (get windows other)

window_of-prune :
    (windows : Windows) (key other : String) (window now : ℕ)
    → HasDistinctKeys windows
    → window_of (prune windows key window now) other ≡ (
        if str_eq key other
        then keep (is_recent now window) (window_of windows key)
        else window_of windows other)
unfolding prune window_of
window_of-prune windows key other window now d =
    let times = keep (is_recent now window) (or_nil (get windows key)) in
    ap or_nil (
      get-keep_values (λ ts. not (is_empty ts)) (put windows key times) other
        (put-HasDistinctKeys windows key times d))
    ∙ or_nil-keep (get (put windows key times) other)
    ∙ ap or_nil (get-put windows key other times)
    ∙ or_nil-if (str_eq key other) times (get windows other)

-- The recent times of a key.
abbrev pub recent_times : Windows → String → ℕ → ℕ → List ℕ
recent_times windows key window now = keep (is_recent now window) (window_of windows key)

str_eq_refl : (key : String) → str_eq key key ≡ true
str_eq_refl key = (eq_iff key key).1 refl

window_of-put_same :
    (windows : Windows) (key : String) (times : List ℕ)
    → window_of (put windows key times) key ≡ times
window_of-put_same windows key times =
    window_of-put windows key key times
    ∙ ap (λ b. if b then times else window_of windows key) (str_eq_refl key)

window_of-put_other :
    (windows : Windows) (key other : String) (times : List ℕ)
    → str_eq key other ≡ false
    → window_of (put windows key times) other ≡ window_of windows other
window_of-put_other windows key other times e =
    window_of-put windows key other times ∙ ap (λ b. if b then times else window_of windows other) e

-- The window of a key after a request.
abbrev pub IsServed : Windows → String → ℕ → ℕ → ℕ → Verdict → Type 0
IsServed windows key limit window now v =
    (v.allowed ≡ ltb (length (recent_times windows key window now)) limit)
    × (window_of v.windows key
        ≡ recent_times windows key window now ++ (if v.allowed then now ∷ [] else []))
    × ((other : String)
        → str_eq key other ≡ false
        → window_of v.windows other ≡ window_of windows other)
    × HasDistinctKeys v.windows

module _ (windows : Windows) (key : String) (window now : ℕ) (d : HasDistinctKeys windows) where
  abbrev pruned : Windows
  pruned = prune windows key window now

  pruned_same : window_of pruned key ≡ recent_times windows key window now
  pruned_same =
      window_of-prune windows key key window now d
      ∙ ap (λ b. if b then recent_times windows key window now else window_of windows key)
          (str_eq_refl key)

  pruned_other :
      (other : String) → str_eq key other ≡ false → window_of pruned other ≡ window_of windows other
  pruned_other other e =
      window_of-prune windows key other window now d
      ∙ ap (λ b. if b then recent_times windows key window now else window_of windows other) e

  pruned-HasDistinctKeys : HasDistinctKeys pruned
  unfolding prune
  pruned-HasDistinctKeys =
      keep_values-HasDistinctKeys (λ times. not (is_empty times))
        (put windows key (recent_times windows key window now))
        (put-HasDistinctKeys windows key (recent_times windows key window now) d)

deny : (n m limit : ℕ) → n ≡ m → leb limit n ≡ true → false ≡ ltb m limit
deny n m limit e h = ground arith

allow : (n m limit : ℕ) → n ≡ m → leb limit n ≡ false → true ≡ ltb m limit
allow n m limit e h = ground arith

-- A request is let through exactly when fewer than the limit were let through in its window; it is then
-- added to its key's window, from which the old times are gone, and the windows of the other keys are as
-- they were. The condition is that the keys of the windows are distinct, and they stay so.
pub is_allowed-IsServed :
    (windows : Windows) (key : String) (limit window now : ℕ)
    → HasDistinctKeys windows
    → IsServed windows key limit window now (is_allowed windows key limit window now)
unfolding is_allowed
is_allowed-IsServed windows key limit window now d =
    let after = pruned windows key window now d in
    let times = window_of after key in
    let same = pruned_same windows key window now d in
    let distinct = pruned-HasDistinctKeys windows key window now d in
    if_cases (IsServed windows key limit window now) (leb limit (length times))
      (λ e. (
        deny (length times) (length (recent_times windows key window now)) limit (ap length same) e,
        window_of-put_same after key times
            ∙ same
            ∙ sym (append-nil (recent_times windows key window now)),
        (λ other o.
            window_of-put_other after key other times o
            ∙ pruned_other windows key window now d other o),
        put-HasDistinctKeys after key times distinct,
      ))
      (λ e. (
        allow (length times) (length (recent_times windows key window now)) limit (ap length same)
            e,
        window_of-put_same after key (times ++ now ∷ []) ∙ ap (λ ts. ts ++ now ∷ []) same,
        (λ other o.
            window_of-put_other after key other (times ++ now ∷ []) o
            ∙ pruned_other windows key window now d other o),
        put-HasDistinctKeys after key (times ++ now ∷ []) distinct,
      ))
