-- ===== src/Config.antt =====
-- internal/config: the registry of services and checks, and the settings that the program runs with.
pub mod Registry
pub mod DotEnv
pub mod Settings
pub mod Reader
pub mod Load
pub mod Jobs
