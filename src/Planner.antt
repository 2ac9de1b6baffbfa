-- ===== src/Planner.antt =====
-- The itinerary planner: the state of its graph, the tools' registry, and the cycle of agent and tools.
pub mod Schemas
pub mod State
pub mod Orchestration
pub mod Stuck
pub mod Registry
pub mod Executor
pub mod Agent
pub mod Graph
pub mod Terminal
pub mod Tools
pub mod Scheduling
pub mod Replanning
pub mod Samples
