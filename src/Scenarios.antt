-- ===== src/Scenarios.antt =====
-- Runs at concrete inputs, where the theorems about the code apply.
pub mod Memory
pub mod Turns
pub mod Writes
pub mod Rooms
pub mod Resets
pub mod Purses
pub mod Shelves
pub mod Queues
pub mod Abilities
pub mod Racks
pub mod Logins
pub mod Codes
