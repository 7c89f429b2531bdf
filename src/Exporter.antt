-- ===== src/Exporter.antt =====
-- pkg/exporter: planning and encoding of a delta bundle.
pub mod Types
pub mod Window
pub mod Mode
pub mod Codec
pub mod Fingerprint
pub mod Planner
pub mod Pool
pub mod Spool
pub mod Encode
pub mod Assemble
