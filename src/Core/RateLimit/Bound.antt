-- ===== src/Core/RateLimit/Bound.antt =====
-- src/core/middleware/rate_limit.py: over a whole run of requests, the limiter lets no more requests
-- of one key through than the limit in any window.
use agentic_guide_system.Prelude.{
  ℕ, ◌+◌, ◌≤◌, ◌<◌, ◌≡◌, refl, sym, ap, ◌∙◌, inl, inr, ◌⊎◌, String, Bool, true, ◌&&◌, List, [], ◌∷◌,
  ◌++◌, keep, length, length-append, count_by, count_by-append, leb, ltb, str_eq, if◌then◌else◌,
  arith, Bool-cases, subst,
}
use text.Mathlib.TextEquality.{eq_iff}
use agentic_guide_system.Prelude.Dict.{get, string_eq}
use agentic_guide_system.Prelude.Dict.Keys.{HasDistinctKeys}
use agentic_guide_system.Core.RateLimit.{Windows, Verdict, window_of, is_recent, is_allowed}
use agentic_guide_system.Core.RateLimit.Window.{recent_times, IsServed, is_allowed-IsServed}

-- The requests come in the order of their times, from a time on.
abbrev pub InOrder : ℕ → List (String × ℕ) → Type 0
InOrder from_time [] = Unit
InOrder from_time (request ∷ requests) = (from_time ≤ request.1) × InOrder request.1 requests

-- The times of the requests of `key` that are let through, in order.
unfoldable pub admitted : String → ℕ → ℕ → Windows → List (String × ℕ) → List ℕ
admitted key limit window windows [] = []
admitted key limit window windows ((k, now) ∷ requests) =
    let verdict = is_allowed windows k limit window now in
    let more = admitted key limit window verdict.windows requests in
    if str_eq k key && verdict.allowed then now ∷ more else more

-- The time lies in the window that ends at `end`.
abbrev pub in_window : ℕ → ℕ → ℕ → Bool
in_window window end t = leb t end && ltb end (t + window)

count-le-length : (p : ℕ → Bool) (xs : List ℕ) → count_by p xs ≤ length xs
count-le-length p [] = omega arith
count-le-length p (x ∷ xs) = ground (arith, count-le-length p xs)

count-keep-le : (p q : ℕ → Bool) (xs : List ℕ) → count_by p (keep q xs) ≤ count_by p xs
count-keep-le p q [] = omega arith
count-keep-le p q (x ∷ xs) = ground (arith, count-keep-le p q xs)

-- What a later window counts is recent.
count-keep_recent :
    (window now end : ℕ) (xs : List ℕ)
    → now ≤ end
    → count_by (in_window window end) (keep (is_recent now window) xs)
      ≡ count_by (in_window window end) xs
unfolding is_recent
count-keep_recent window now end [] h = refl
count-keep_recent window now end (x ∷ xs) h = ground (arith, count-keep_recent window now end xs h)

below_or_above : (a b : ℕ) → (a < b) ⊎ (b ≤ a)
below_or_above a b = ground arith

module _ (key : String) (limit window : ℕ) where
  -- A window that ends before the requests start counts none of them.
  admitted_later :
      (windows : Windows) (requests : List (String × ℕ)) (from_time end : ℕ)
      → InOrder from_time requests
      → end < from_time
      → count_by (in_window window end) (admitted key limit window windows requests) ≡ 0
  unfolding admitted
  admitted_later windows [] from_time end o h = refl
  admitted_later windows ((k, now) ∷ requests) from_time end o h =
      let verdict = is_allowed windows k limit window now in
      ground (arith, admitted_later verdict.windows requests now end o.1 (omega arith))

  abbrev Bounded : List ℕ → Type 0
  Bounded times = (end : ℕ) → count_by (in_window window end) times ≤ limit

  abbrev tally : ℕ → List ℕ → ℕ
  tally end times = count_by (in_window window end) times

  -- Together with what the window of the key holds.
  abbrev Together : Windows → List ℕ → Type 0
  Together windows more =
      Bounded (window_of windows key)
      → (end : ℕ) → tally end (window_of windows key) + tally end more ≤ limit

  fits : (n : ℕ) → true ≡ ltb n limit → n + 1 ≤ limit
  fits n e = ground arith

  bounded :
      (windows : Windows) (now : ℕ) (added : List ℕ)
      → (length (recent_times windows key window now) + length added ≤ limit) ⊎ (added ≡ [])
      → Bounded (window_of windows key)
      → Bounded (recent_times windows key window now ++ added)
  bounded windows now added (inl room) h end =
      let kept = recent_times windows key window now in
      omega
        (arith, count-le-length (in_window window end) (kept ++ added), length-append kept added)
  bounded windows now added (inr none) h end =
      let kept = recent_times windows key window now in
      rw none (
        omega (
          arith,
          count_by-append (in_window window end) kept [],
          count-keep-le (in_window window end) (is_recent now window) (window_of windows key),
          h end,
        ))

  -- The key's window after a request, where only what is recent was kept and `added` was appended.
  own_step :
      (windows : Windows) (now : ℕ) (after more added : List ℕ)
      → after ≡ recent_times windows key window now ++ added
      → (length (recent_times windows key window now) + length added ≤ limit) ⊎ (added ≡ [])
      → ((end : ℕ) → end < now → tally end (added ++ more) ≡ 0)
      → (Bounded after → (end : ℕ) → tally end after + tally end more ≤ limit)
      → Bounded (window_of windows key)
      → (end : ℕ) → tally end (window_of windows key) + tally end (added ++ more) ≤ limit
  own_step windows now after more added e room early rest h end =
      let kept = recent_times windows key window now in
      elim (below_or_above end now) [
        | inl below ↦ omega (arith, early end below, h end)
        | inr above ↦ omega (
          arith,
          count-keep_recent window now end (window_of windows key) above,
          count_by-append (in_window window end) kept added,
          count_by-append (in_window window end) added more,
          ap (tally end) e,
          rest (rw e (bounded windows now added room h)) end,
        )
      ]

  moved :
      (next windows : Windows) (more : List ℕ)
      → window_of next key ≡ window_of windows key
      → Together next more
      → Together windows more
  moved next windows more e rest =
      subst
        (λ (times : List ℕ). Bounded times → (end : ℕ) → tally end times + tally end more ≤ limit) e
        rest

  own_request :
      (windows : Windows) (now : ℕ) (verdict : Verdict) (more : List ℕ)
      → IsServed windows key limit window now verdict
      → ((end : ℕ) → end < now → tally end more ≡ 0)
      → Together verdict.windows more
      → Bounded (window_of windows key)
      → (end : ℕ)
      → tally end (window_of windows key) + tally end (if verdict.allowed then now ∷ more else more)
        ≤ limit
  own_request windows now verdict more served early rest h end =
      let after = window_of verdict.windows key in
      let held = served.1 in
      let room = served.0 in
      elim (Bool-cases verdict.allowed) [
        | inl passes ↦ rw passes (
            own_step windows now after more (now ∷ [])
              (held
                ∙ ap (λ b. recent_times windows key window now ++ (if b then now ∷ [] else []))
                    passes)
              (inl (fits (length (recent_times windows key window now)) (sym passes ∙ room)))
              (λ at below. ground (arith, early at below)) rest h end)
        | inr stays ↦ rw stays (
            own_step windows now after more []
              (held
                ∙ ap (λ b. recent_times windows key window now ++ (if b then now ∷ [] else []))
                    stays)
              (inr refl) early rest h end)
      ]

  admitted-Together :
      (windows : Windows) (requests : List (String × ℕ)) (from_time : ℕ)
      → HasDistinctKeys windows
      → InOrder from_time requests
      → Together windows (admitted key limit window windows requests)
  unfolding admitted
  admitted-Together windows [] from_time d o h end = omega (arith, h end)
  admitted-Together windows ((k, now) ∷ requests) from_time d o h end =
      let verdict = is_allowed windows k limit window now in
      let served = is_allowed-IsServed windows k limit window now d in
      let rest = admitted-Together verdict.windows requests now served.3 o.1 in
      elim (Bool-cases (str_eq k key)) [
        | inr other ↦ rw other (moved verdict.windows windows _ (served.2 key other) rest h end)
        | inl same ↦ rw same (
            own_request windows now verdict (admitted key limit window verdict.windows requests)
              (subst (λ (x : String). IsServed windows x limit window now verdict)
                ((eq_iff k key).0 same) served)
              (λ at below. admitted_later verdict.windows requests now at o.1 below) rest h end)
      ]

-- A limiter that starts empty lets at most `limit` requests of a key through in any window: of the times
-- at which requests of the key passed, at most `limit` lie in the `window` ticks up to any time. The
-- requests, of this key and others, come in the order of their times.
pub admitted-le-limit :
    (key : String) (limit window : ℕ) (requests : List (String × ℕ))
    → InOrder 0 requests
    → (end : ℕ) → count_by (in_window window end) (admitted key limit window [] requests) ≤ limit
unfolding window_of get
admitted-le-limit key limit window requests o end =
    omega (arith, admitted-Together key limit window [] requests 0 tt o (λ at. omega arith) end)
