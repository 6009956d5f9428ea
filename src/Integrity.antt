-- ===== src/Integrity.antt =====
-- runeguard/integrity.py: the hash-chained audit log.
pub mod Runtime
pub mod Envelope
pub mod Log
pub mod Verify
pub mod Chain
pub mod Growth
pub mod Appending
pub mod Runs
pub mod Material
pub mod Hashed
pub mod Collisions
pub mod Tampering
