-- ===== src/Models.antt =====
-- The enumerations of backend/src/models.py that the modelled code reads.
pub mod Enums
pub mod Roles
pub mod Users
pub mod Tournaments
pub mod SanctionKinds
pub mod TournamentKinds
pub mod LinkKinds
pub mod OauthKinds
pub mod Oauth
