-- ===== src/Models/Oauth.antt =====
-- The OAuth records of backend/src/models.py.
use archon_vibe.Prelude.{String, Bool, Option, List}
use archon_vibe.Models.Users.{Instant}
use archon_vibe.Models.OauthKinds.{OauthScope}

pub record OauthClient : Type 0 where
  pub uid : String
  pub modified : Instant
  pub name : String
  pub client_id : String
  pub client_secret_hash : String
  pub redirect_uris : List String
  pub scopes : List OauthScope
  pub created_by_uid : String
  pub active : Bool
  pub email_purpose : Option String

pub record OauthAuthorizationCode : Type 0 where
  pub uid : String
  pub modified : Instant
  pub code : String
  pub client_id : String
  pub user_uid : String
  pub redirect_uri : String
  pub scopes : List OauthScope
  pub tournament_uid : Option String
  pub code_challenge : String
  pub expires_at : Instant
  pub used : Bool

-- `access` and `refresh`, the two values of `token_type`
pub data TokenType : Type 0 where
  access refresh : TokenType

pub record OauthToken : Type 0 where
  pub uid : String
  pub modified : Instant
  pub token_jti : String
  pub client_id : String
  pub user_uid : String
  pub scopes : List OauthScope
  pub tournament_uid : Option String
  pub token_type : TokenType
  pub expires_at : Instant
  pub revoked : Bool
  pub parent_token_uid : Option String

pub record OauthConsent : Type 0 where
  pub uid : String
  pub modified : Instant
  pub user_uid : String
  pub client_id : String
  pub scopes : List OauthScope
  pub tournament_uid : Option String
