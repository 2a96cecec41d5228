-- ===== src/Home.antt =====
-- The integration's entry points for Home Assistant: __init__.py, config_flow.py, and the entities that
-- are made from the configuration. What Home Assistant itself does is an argument.
pub mod Entities
pub mod Doorbell
pub mod Resources
pub mod Suffixes
pub mod Flow
pub mod Entries
pub mod Outcomes
