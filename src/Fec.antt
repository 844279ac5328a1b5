-- ===== src/Fec.antt =====
-- Error detection and correction, spectracuda/fec.
pub mod Codes
pub mod Crc
pub mod Convolutional
pub mod ReedSolomon
pub mod Wrapper
pub mod Examples
