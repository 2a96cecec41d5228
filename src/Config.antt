-- ===== src/Config.antt =====
-- config_reader.py: the configuration that the device sends.
pub mod Json
pub mod Keys
pub mod Parse
pub mod Indices
pub mod Answers
