-- ===== src/JudgeDirectory.antt =====
-- The Judge and Sheriff roles, kept as the public directory of judges lists them.
pub mod Sync
pub mod Listed
pub mod Settled
