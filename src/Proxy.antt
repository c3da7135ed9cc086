-- ===== src/Proxy.antt =====
-- internal/proxy: the transparent proxy between a client and a provider.
pub mod Headers
pub mod Paths
pub mod Handler
pub mod Setup
mod Tests
