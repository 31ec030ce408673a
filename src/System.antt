-- ===== src/System.antt =====
-- The service in operation: requests, workers and the reclaimer, in any order. A step is one call of
-- an entry point with its environment; other connections act on the tables between any two calls of
-- the database through the snapshots that the environment chooses.
pub mod Startup
pub mod Steps
pub mod Writes
pub mod Appends
pub mod Life
pub mod Kept
pub mod Owners
pub mod Replays
pub mod Loops
pub mod Requests
pub mod Traffic
pub mod Answered
