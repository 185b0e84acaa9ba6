-- ===== src/Config.antt =====
-- The settings of src/utils/config.py, read from the environment.
pub mod Words
pub mod Numbers
pub mod Settings
pub mod Peers
pub mod Loaded
mod Tests
