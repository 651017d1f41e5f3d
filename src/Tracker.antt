-- ===== src/Tracker.antt =====
-- internal/store/initiative.go and internal/handler/initiative.go: the stored calls, the changes
-- that the endpoints make, and the optimistic loop that writes them.
pub mod Calls
pub mod Changes
pub mod Start
pub mod Loop
pub mod Endpoints
pub mod Guarded
pub mod Invariant
pub mod RoundRobin
pub mod Versions
pub mod Timely
pub mod Races
pub mod Published
pub mod Committed
