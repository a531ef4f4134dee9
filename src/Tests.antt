-- ===== src/Tests.antt =====
-- Concrete members, tournaments and documents, the theorems applied to them, and runs of the code.
pub mod Data
mod Saving
mod Access
mod Queue
mod Authority
mod Stock
mod Live
mod Sanctions
mod Oauth
mod Issuing
mod Offline
mod Judges
mod Ratings
mod Community
