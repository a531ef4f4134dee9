-- ===== src/Oauth/Claims.antt =====
-- The tokens' claims, and what the libraries do to them: parameters of the handlers.
use archon_vibe.Prelude.{String, Bool, Option}
use archon_vibe.Models.Users.{Instant}

-- The payload of `_create_oauth_jwt`; a claim that a token may lack is optional.
pub record Claims : Type 0 where
  pub sub : String
  pub kind : Option String
  pub scope : String
  pub client_id : Option String
  pub jti : String
  pub tournament : Option String
  pub issued_at : Instant
  pub expires_at : Instant

-- The payload of a token that a client holds for itself.
pub record ClientClaims : Type 0 where
  pub client_id : String
  pub scope : String
  pub issued_at : Instant
  pub expires_at : Instant

-- What decoding a token for the application gives.
pub data Decoded : Type 0 where
  expired invalid : Decoded
  decoded : Claims → Decoded

-- argon2, SHA-256 of an ASCII text in URL-safe base64 without padding, with no result for a text that
-- is not ASCII, and the signed tokens of jwt_config.
pub record Crypto : Type 0 where
  pub verify_secret : String → String → Bool
  pub s256 : String → Option String
  pub sign : Claims → String
  pub sign_client : ClientClaims → String
  pub decode : String → Decoded
  pub decode_unexpiring : String → Option Claims
