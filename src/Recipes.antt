-- ===== src/Recipes.antt =====
-- The recipes on top of a client (recipes/): leader election, mutexes and what they share.
pub mod Client
pub mod CoreClient
pub mod Observer
pub mod Schedule
pub mod Acquire
pub mod Mutex
pub mod Holder
pub mod Election
