-- ===== src/Offline.antt =====
-- The lock of a tournament that is run offline.
pub mod Lock
pub mod Exclusion
