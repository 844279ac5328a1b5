-- ===== src/Framing.antt =====
-- The framing layer, spectracuda/framing.
pub mod Schemes
pub mod Header
pub mod Packetizer
pub mod Examples
