-- ===== src/Protocol.antt =====
-- The wire protocol (custom_components/comelit_intercom_local/protocol.py), one module for each
-- group of messages.
pub mod Header
pub mod Channels
pub mod Door
pub mod Video
pub mod Rtp
pub mod RoundTrip
