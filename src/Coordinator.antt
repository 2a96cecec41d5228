-- ===== src/Coordinator.antt =====
-- coordinator.py: connection, video session and listener together. Its laws are in the modules below.
pub mod State
pub mod Callbacks
pub mod Listener
pub mod Stopping
pub mod Connection
pub mod Streaming
pub mod Doors
pub mod Steps
pub mod Abstract
pub mod Views
pub mod Moves
pub mod Safety
pub mod Starts
pub mod Refresh
pub mod Races
pub mod Entities
pub mod Keepalive
