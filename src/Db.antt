-- ===== src/Db.antt =====
-- `save_object` of backend/src/db.py: the write of an object with its four projections, and what is
-- then broadcast.
pub mod Save
pub mod AccessVersion
pub mod Lockstep
pub mod Consistency
