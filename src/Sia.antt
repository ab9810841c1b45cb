-- ===== src/Sia.antt =====
-- sia: what the client keeps of the network.
pub mod Reader
pub mod Envelope
pub mod Caching
pub mod Location
pub mod Rejoining
pub mod Examples
