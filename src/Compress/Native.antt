-- ===== src/Compress/Native.antt =====
-- internal/compress/native_text_log.go and native_structured.go: the compressors that need no
-- plugin. json.Compact is a parameter, `none` where it returns an error.
pub mod Collapse
pub mod Diff
pub mod Dispatch
