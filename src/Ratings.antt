-- ===== src/Ratings.antt =====
-- Ratings: backend/src/ratings.py.
pub mod Window
pub mod Results
pub mod Earned
pub mod Total
pub mod Best
pub mod Rolled
