-- ===== src/Configgen.antt =====
-- internal/configgen: the checks of the configuration, and what is rendered from it.
pub mod Vlans
pub mod Settings
pub mod Hosts
pub mod Records
pub mod Zones
pub mod Corefile
pub mod Validate
mod Tests
