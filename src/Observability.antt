-- ===== src/Observability.antt =====
-- internal/observability: request telemetry with retention, and the redaction of logs.
pub mod Telemetry
pub mod Privacy
pub mod Retention
pub mod Logging
pub mod Build
mod Tests
