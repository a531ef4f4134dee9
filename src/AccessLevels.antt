-- ===== src/AccessLevels.antt =====
-- backend/src/access_levels.py: the projections of a stored object for each access level.
pub mod Users
pub mod Tournaments
pub mod Decks
pub mod Dispatch
pub mod Nesting
pub mod Secrecy
pub mod Events
pub mod DeckAnonymity
