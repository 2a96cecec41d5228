-- ===== src/Client.antt =====
-- client.py and channels.py: the TCP client of the ICONA bridge. Its laws are in the modules below.
pub mod State
pub mod Dispatch
pub mod Calls
pub mod Routing
pub mod Opens
pub mod Loop
pub mod Sends
