-- ===== src/Lease.antt =====
-- The package lease.
pub mod Errors
pub mod Config
pub mod Record
pub mod State
pub mod Reads
pub mod Proposals
pub mod World
pub mod Operations
pub mod Mutations
pub mod Client
pub mod S3Store
pub mod Safety
pub mod Progress
