-- ===== src/Receiver.antt =====
-- rtp_receiver.py: the state of `RtpReceiver` and what one media packet does to it, up to the queue
-- that the H.264 decoder reads; and the loop round that decoder. Times of the log are left out.
pub mod Queues
pub mod Nals
pub mod Packets
pub mod Decode
pub mod Failures
pub mod Bounds
