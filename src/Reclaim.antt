-- ===== src/Reclaim.antt =====
-- store/reclaim: what a sweep may destroy (reclaim.go), in which order it does, and the rewriting of live
-- records into fewer slabs (repack.go).
pub mod Plan
pub mod Keeping
pub mod Device
pub mod Sweep
pub mod Order
pub mod Orphans
pub mod Empty
pub mod Repack
pub mod Moving
pub mod Examples
