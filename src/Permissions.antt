-- ===== src/Permissions.antt =====
-- engine/src/permissions.rs and its marshalling layer, backend/src/permissions.py.
pub mod Capability
pub mod Matrix
pub mod Engine
pub mod Checks
pub mod Authority
pub mod Monotone
pub mod SanctionAuthority
