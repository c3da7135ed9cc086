-- ===== src/Compress.antt =====
-- internal/compress: the blocks of a request, the native compressors, and the pipeline that applies
-- a compressor's proposal only where it saves tokens.
pub mod Block
pub mod LiveZone
pub mod Native
pub mod Pipeline
mod Tests
