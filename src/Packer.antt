-- ===== src/Packer.antt =====
-- store/packer: when the queue becomes a flush (policy.go), and the flush (packer.go).
pub mod Policy
pub mod Flush
pub mod Cadence
pub mod Safety
pub mod Counts
pub mod Examples
