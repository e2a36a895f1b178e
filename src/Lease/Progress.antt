-- ===== src/Lease/Progress.antt =====
-- What `Require` of lease/operations.go achieves when nothing stands in its way.
pub mod Rules
pub mod Taking
