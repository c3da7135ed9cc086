-- ===== src/Cli.antt =====
-- internal/cli/cli.go: the command line.
pub mod Flags
pub mod Environment
pub mod Integrations
pub mod Plugins
pub mod Run
pub mod Serve
pub mod Effects
pub mod Codes
mod Tests
