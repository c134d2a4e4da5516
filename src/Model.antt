-- ===== src/Model.antt =====
-- model: the settings, and the names in them.
pub mod Domain
pub mod Settings
