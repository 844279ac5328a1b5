-- ===== src/Mac.antt =====
-- The MAC layer, spectracuda/mac.
pub mod Pdu
pub mod Segmenter
pub mod Reassembly
pub mod Tm
pub mod Um
pub mod Am
pub mod Bind
pub mod Capacity
pub mod Quality
pub mod Radio
pub mod Entity
pub mod Unit
pub mod Session
pub mod Runs
pub mod Examples
