-- ===== src/Vip.antt =====
-- vip_listener.py: the listener for doorbell and call events on the CTPP channel.
pub mod Parse
pub mod Listener
pub mod Acks
pub mod Spacing
pub mod RoundTrip
pub mod Supervisor
