-- ===== src/Broadcast.antt =====
-- backend/src/broadcast.py
pub mod Queue
pub mod Data
pub mod Fanout
pub mod Personal
pub mod Pushed
pub mod PersonalView
pub mod Entitlement
pub mod Delivered
