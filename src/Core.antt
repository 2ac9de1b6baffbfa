-- ===== src/Core.antt =====
-- The shared services of src/core that keep a state in memory.
pub mod Cache
pub mod RateLimit
