-- ===== src/Rtsp.antt =====
-- rtsp_server.py: the local RTSP server, without its sockets.
pub mod Clients
pub mod Server
pub mod Video
pub mod Clock
pub mod Rtcp
pub mod Feeds
pub mod Session
pub mod Sdp
pub mod Transport
pub mod Requests
pub mod Handler
pub mod Setups
pub mod Answers
pub mod Priming
pub mod Registrations
pub mod Writers
pub mod Lifetime
pub mod Pipelining
pub mod Packings
pub mod Numbers
pub mod Resets
pub mod Fragments
pub mod RoundTrip
pub mod Packets
pub mod Broadcast
