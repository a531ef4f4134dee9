-- ===== src/Oauth.antt =====
-- The OAuth authorization server: backend/src/routes/oauth.py over backend/src/db_oauth.py.
pub mod Store
pub mod Grant
pub mod Authorize
pub mod Claims
pub mod Tokens
pub mod Consents
pub mod Clients
pub mod Exchange
pub mod Rotation
pub mod Replay
pub mod Withdrawal
pub mod Narrowing
pub mod Scopes
pub mod Endpoint
