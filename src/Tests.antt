-- ===== src/Tests.antt =====
-- Runs of the model at concrete inputs, and the theorems at them.
mod Scene
mod Client
mod Records
mod Versions
mod Leader
mod Progress
mod Store
mod Ledger
mod Fences
mod Locks
