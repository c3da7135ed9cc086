-- ===== src/Ccr.antt =====
-- internal/ccr: content-addressed retrieval: markers, the object store and its retention.
pub mod Marker
mod FlatHash
pub mod Store
pub mod Retention
