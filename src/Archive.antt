-- ===== src/Archive.antt =====
-- internal/archive: the delta archive, a tar stream that may be compressed.
pub mod Clean
pub mod Reader
