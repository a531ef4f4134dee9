-- ===== src/Sanctions.antt =====
-- backend/src/routes/sanctions.py: what a sanction has to be, and what a disqualification and its
-- undoing make of the player.
pub mod Validation
pub mod Disqualification
pub mod Requests
pub mod Create
pub mod Update
pub mod Active
pub mod Sole
pub mod Delete
pub mod Sound
pub mod Restored
