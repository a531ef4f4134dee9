-- ===== src/Oauth/Endpoint.antt =====
-- `token_endpoint` and `_handle_client_credentials` of backend/src/routes/oauth.py.
use archon_vibe.Prelude.{
  ℕ, String, ◌+◌, ◌*◌, Bool, true, false, not, Option, List, [], ◌∷◌, ◌==◌, string_eq,
  nonempty_text, member, if◌then◌else◌,
}
use archon_vibe.Prelude.Outcome.{Outcome, raise}
use archon_vibe.Prelude.Action.{Action, settled, pass, raise_if, ◌>>=◌, ◌>>◌}
use archon_vibe.Models.OauthKinds.{OauthScope, oauth_scope_eq}
use archon_vibe.Models.Tournaments.{Tournament}
use archon_vibe.Models.Users.{Instant}
use archon_vibe.Models.Oauth.{OauthClient}
use archon_vibe.Oauth.Store.{OauthStore}
use archon_vibe.Oauth.Grant.{scope_text, parse_scopes, second}
use archon_vibe.Oauth.Claims.{Crypto}
use archon_vibe.Oauth.Tokens.{
  TokenRequest, Minted, TokenPair, authenticate, handle_authorization_code, handle_refresh_token,
}

abbrev pub client_token_lifetime : ℕ
client_token_lifetime = 3600 * second

-- The answer to a token request; a client's own token has no refresh token.
pub data TokenAnswer : Type 0 where
  pair : TokenPair → TokenAnswer
  client_token : String → TokenAnswer

-- `scopes != [OAuthScope.API_READ]`
abbrev pub asks_more : List OauthScope → Bool
asks_more [] = true
asks_more (s ∷ []) = not (s == OauthScope.api_read)
asks_more (s ∷ t ∷ rest) = true

-- What the scopes of a request for a client's token may be; none is as good as `api:read`.
abbrev pub requested_beyond : Outcome (List OauthScope) → Action OauthStore (Unit {0})
requested_beyond scopes = do
  named ← settled scopes
  raise_if (asks_more named) 400 "client_credentials grants api:read and nothing else"

module _ (crypto : Crypto) (tournaments : String → Option Tournament) where
  unfoldable pub handle_client_credentials :
      TokenRequest → OauthClient → Instant → Action OauthStore TokenAnswer
  handle_client_credentials body client now = do
    raise_if (not (member OauthScope.api_read client.scopes)) 400
        "Client is not allowed the api:read scope"
    elim (nonempty_text body.scope) [
      | true ↦ requested_beyond (parse_scopes body.scope)
      | false ↦ pass tt
    ]
    pass (
        client_token (
          crypto.sign_client (record {
            client_id = client.client_id;
            scope = scope_text OauthScope.api_read;
            issued_at = now;
            expires_at = now + client_token_lifetime;
          })))

  abbrev pub answer_pair : TokenPair → Action OauthStore TokenAnswer
  answer_pair p = pass (pair p)

  unfoldable pub token_endpoint : TokenRequest → Instant → Minted → Action OauthStore TokenAnswer
  token_endpoint body now minted = do
    client ← authenticate crypto tournaments body
    if body.grant_type == "authorization_code"
        then (handle_authorization_code crypto tournaments body client now minted >>= answer_pair)
        else (if body.grant_type == "refresh_token"
            then (handle_refresh_token crypto tournaments body client now minted >>= answer_pair)
            else (if body.grant_type == "client_credentials"
                then handle_client_credentials body client now
                else settled (raise 400 "Unsupported grant_type")))
