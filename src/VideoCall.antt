-- ===== src/VideoCall.antt =====
-- video_call.py: a video call on the shared connection. Its laws are in the modules below.
pub mod Session
pub mod Exchange
pub mod Cleanup
pub mod Start
pub mod Monitor
pub mod Quiet
pub mod Acks
pub mod Codec
pub mod Released
pub mod Logic
pub mod Counters
pub mod Kept
pub mod Sharing
