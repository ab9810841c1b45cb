-- ===== src/Vault.antt =====
-- vault/session.go: conversations, over the heads, the queue, the catalog and the index.
pub mod Heads
pub mod Edges
pub mod Rounds
pub mod Children
pub mod Appending
pub mod Forgetting
pub mod Removal
pub mod Stopping
pub mod Forgotten
pub mod Examples
