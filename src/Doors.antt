-- ===== src/Doors.antt =====
-- door.py and ctpp.py: the exchanges that open a door.
pub mod Handshake
pub mod Opening
pub mod Sequence
pub mod Connection
