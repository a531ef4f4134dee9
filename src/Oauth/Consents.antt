-- ===== src/Oauth/Consents.antt =====
-- `revoke_consent` of backend/src/routes/oauth.py: the tokens first, then the consent.
use archon_vibe.Prelude.{ℕ, String, Bool, not, ◌&&◌, length, any, filter, ◌==◌, nat_eq, string_eq}
use archon_vibe.Prelude.Action.{Action, reads, writes, pass, raise_if, ◌>>=◌, ◌>>◌}
use archon_vibe.Models.Users.{User}
use archon_vibe.Oauth.Store.{
  OauthStore, is_live_token_of, is_authorization_of, delete_oauth_consent,
  revoke_oauth_tokens_for_user_client,
}
use archon_vibe.Oauth.Authorize.{require_first_party, consent_detail}

-- The number of tokens revoked.
unfoldable pub revoke_consent : User → Bool → String → Action OauthStore ℕ
revoke_consent user first_party client_id = do
  require_first_party first_party consent_detail
  live ← reads (λ st. filter (is_live_token_of user.uid client_id) st.tokens)
  writes (revoke_oauth_tokens_for_user_client user.uid client_id)
  deleted ← reads (λ st. any (λ r. is_authorization_of user.uid client_id r.consent) st.consents)
  writes (delete_oauth_consent user.uid client_id)
  raise_if (not deleted && length live == 0) 404 "No authorization found for this app"
  pass (length live)
