-- ===== src/Community.antt =====
-- Community links: backend/src/community_links.py and the two routes that save links.
pub mod Rules
pub mod Placement
pub mod Saving
pub mod Authority
pub mod Pins
