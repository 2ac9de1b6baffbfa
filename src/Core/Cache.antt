-- ===== src/Core/Cache.antt =====
-- src/core/cache/backends.py: `InMemoryCacheBackend`. The store is a dictionary from keys to values
-- with the time at which they expire; what `time.monotonic()` answers is an argument, one for each
-- call of it, in ticks.
pub mod Expiry
pub mod Tests
use agentic_guide_system.Prelude.{
  ℕ, ◌+◌, String, Option, none, some, Bool, not, keep, leb, str_eq, if◌then◌else◌,
}
use agentic_guide_system.Prelude.Dict.{Dict, get, put, string_eq}
use agentic_guide_system.Prelude.Dict.Keys.{keep_values}

-- A value and the time at which it expires.
abbrev pub Stored : Type 0
Stored = String × ℕ

abbrev pub Store : Type 0
Store = Dict String Stored

-- `self._store.pop(key, None)`
unfoldable pub delete : Store → String → Store
delete store key = keep (λ entry. not (str_eq entry.0 key)) store

-- What `get` answers for the entry that it found, with the store after it.
found : Store → String → ℕ → Option Stored → Option String × Store
unfolding delete
found store key now none = (none, store)
found store key now (some (value, expires_at)) =
    if leb expires_at now then (none, delete store key) else (some value, store)

-- `InMemoryCacheBackend.get`
unfoldable pub cache_get : Store → String → ℕ → Option String × Store
unfolding found
cache_get store key now = found store key now (get store key)

-- `InMemoryCacheBackend.set`, which reads the clock twice. A negative number of seconds is 0.
unfoldable pub cache_set : Store → String → String → ℕ → ℕ → ℕ → Store
cache_set store key value ttl now later =
    keep_values (λ entry. not (leb entry.1 later)) (put store key (value, now + ttl))
