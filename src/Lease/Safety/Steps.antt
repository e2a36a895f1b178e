-- ===== src/Lease/Safety/Steps.antt =====
-- The calls of a client as sequences of atomic steps: every call, with what the other goroutines do
-- meanwhile, takes the core along `Steps`.
pub mod Rules
pub mod Reading
pub mod Acquiring
pub mod Mutating
