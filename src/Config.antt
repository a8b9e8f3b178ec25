-- ===== src/Config.antt =====
-- The configuration (src/config.rs): the Gateway, its environments and the team in force.
pub mod Settings
pub mod Environments
pub mod Carrying
pub mod Trimming
pub mod Moving
pub mod Picks
pub mod Tests
