-- ===== src/Travel.antt =====
-- The travel engine (src/travel_engine): pure rules that select, allocate, order, time and validate
-- the stops of a trip.
pub mod Rules
pub mod Places
pub mod Days
pub mod Clock
pub mod Routing
pub mod Route
pub mod Schedule
pub mod Validator
pub mod Samples
