-- ===== src/Token.antt =====
-- token.py: the token is read from a backup that the device's web interface offers.
pub mod Backups
pub mod Archive
pub mod Choice
pub mod Tokens
