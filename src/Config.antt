-- ===== src/Config.antt =====
-- internal/config: the configuration, its defaults and its checks.
pub mod Limits
pub mod Defaults
pub mod Types
pub mod Platform
pub mod Listeners
pub mod Loops
pub mod Validate
pub mod Slipgate
pub mod Load
