-- ===== src/Lease/Safety.antt =====
-- What holds of a core whatever is called and whatever the other goroutines do.
pub mod Quiet
pub mod Steps
pub mod Changes
pub mod Lasting
pub mod Invariant
pub mod Authority
pub mod Ends
pub mod Grants
pub mod Confirmations
pub mod Renewals
pub mod Checks
pub mod Handover
pub mod Spec
pub mod Refinement
pub mod Exclusion
pub mod Takeover
