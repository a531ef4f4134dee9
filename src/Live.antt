-- ===== src/Live.antt =====
-- What organizers and players do in a running tournament, outside the engine: the round timer, the
-- announcements and the calls for a judge of backend/src/routes/tournaments.py.
pub mod Timer
pub mod Announcements
pub mod JudgeCall
pub mod Called
pub mod Steps
pub mod Invariant
pub mod Clock
pub mod Extra
