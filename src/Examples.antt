-- ===== src/Examples.antt =====
-- The theorems at concrete inputs, and tests of the definitions.
mod Media
mod Bridge
mod Events
mod Exchanges
mod Calls
mod Home
mod Settings
mod Streams
mod Setup
