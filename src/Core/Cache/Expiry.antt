-- ===== src/Core/Cache/Expiry.antt =====
-- src/core/cache/backends.py: what a lookup answers after the store was written.
use agentic_guide_system.Prelude.{
  ℕ, ◌+◌, ◌≤◌, ◌≡◌, refl, String, Option, none, some, Bool, true, false, not, leb, ltb, str_eq,
  if◌then◌else◌, arith,
}
use agentic_guide_system.Prelude.Dict.{get, put, get-put, string_eq}
use agentic_guide_system.Prelude.Dict.Keys.{
  keep_some, HasDistinctKeys, get-keep_values, keep_values-HasDistinctKeys, put-HasDistinctKeys,
}
use agentic_guide_system.Core.Cache.{Stored, Store, found, cache_get, cache_set}

-- What is stored under a key and has not expired.
abbrev alive : ℕ → Option Stored → Option String
alive now none = none
alive now (some (value, expires_at)) = if leb expires_at now then none else some value

-- The answer of a lookup, without the store after it.
abbrev pub answer : Store → String → ℕ → Option String
answer store key now = (cache_get store key now).0

answer-alive :
    (store : Store) (key : String) (now : ℕ) → answer store key now ≡ alive now (get store key)
unfolding cache_get found
answer-alive store key now = ground arith

alive-keep :
    (later now : ℕ) (entry : Option Stored)
    → later ≤ now
    → alive now (keep_some (λ e. not (leb e.1 later)) entry) ≡ alive now entry
alive-keep later now none h = refl
alive-keep later now (some (value, expires_at)) h = ground arith

alive-if :
    (now : ℕ) (b : Bool) (value : String) (expires_at : ℕ) (old : Option Stored)
    → alive now (if b then some (value, expires_at) else old)
      ≡ (if b then (if ltb now expires_at then some value else none) else alive now old)
alive-if now true value expires_at old = ground arith
alive-if now false value expires_at old = refl

-- After a value was set, a lookup of its key answers the value until its time to live is over and
-- nothing from then on, and a lookup of another key answers what it would have answered before. The
-- conditions are that the keys of the store are distinct and that the lookup comes after the set.
pub cache_get-cache_set :
    (store : Store) (key other value : String) (ttl now later at_time : ℕ)
    → HasDistinctKeys store
    → later ≤ at_time
    → answer (cache_set store key value ttl now later) other at_time ≡ (
        if str_eq key other
        then (if ltb at_time (now + ttl) then some value else none)
        else answer store other at_time)
unfolding cache_set
cache_get-cache_set store key other value ttl now later at_time d h =
    rw
      (
        answer-alive (cache_set store key value ttl now later) other at_time,
        answer-alive store other at_time,
        get-keep_values (λ e. not (leb e.1 later)) (put store key (value, now + ttl)) other
            (put-HasDistinctKeys store key (value, now + ttl) d),
        alive-keep later at_time (get (put store key (value, now + ttl)) other) h,
        get-put store key other (value, now + ttl),
      )
      (alive-if at_time (str_eq key other) value (now + ttl) (get store other))

-- Setting keeps the keys distinct.
cache_set-HasDistinctKeys :
    (store : Store) (key value : String) (ttl now later : ℕ)
    → HasDistinctKeys store
    → HasDistinctKeys (cache_set store key value ttl now later)
unfolding cache_set
cache_set-HasDistinctKeys store key value ttl now later d =
    keep_values-HasDistinctKeys (λ e. not (leb e.1 later)) (put store key (value, now + ttl))
      (put-HasDistinctKeys store key (value, now + ttl) d)
