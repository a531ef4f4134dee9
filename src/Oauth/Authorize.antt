-- ===== src/Oauth/Authorize.antt =====
-- `authorize_get` and `authorize_post` of backend/src/routes/oauth.py. A handler takes the user of
-- the session and whether the session is a first party's.
use archon_vibe.Prelude.{
  String, Bool, true, false, not, ◌||◌, Option, none, some, List, ◌==◌, string_eq, nonempty_text,
}
use archon_vibe.Prelude.Action.{Action, settled, reads, writes, pass, raise_if, ◌>>=◌, ◌>>◌}
use archon_vibe.Models.OauthKinds.{OauthScope}
use archon_vibe.Models.Tournaments.{Tournament}
use archon_vibe.Models.Users.{User}
use archon_vibe.Models.Oauth.{OauthConsent}
use archon_vibe.Oauth.Store.{
  OauthStore, get_oauth_client_by_client_id, get_oauth_consent, insert_oauth_code,
  upsert_oauth_consent,
}
use archon_vibe.Oauth.Grant.{
  AuthorizeRequest, Drawn, Redirect, checked_scopes, grant_tournament, uid_of, code_for, is_subset,
}

abbrev pub require_first_party : Bool → String → Action OauthStore (Unit {0})
require_first_party first_party detail = raise_if (not first_party) 403 detail

abbrev pub consent_detail : String
consent_detail = "Consent management requires a first-party session"

-- `consent and set(requested_scopes).issubset(set(consent.scopes))`
abbrev pub covers : Option OauthConsent → List OauthScope → Bool
covers none scopes = false
covers (some c) scopes = is_subset scopes c.scopes

abbrev pub consent_for : Drawn → User → String → List OauthScope → Option String → OauthConsent
consent_for drawn user client_id scopes tournament_uid = record {
  uid = drawn.consent_uid;
  modified = drawn.now;
  user_uid = user.uid;
  client_id = client_id;
  scopes = scopes;
  tournament_uid = tournament_uid;
}

-- The answer to a request whose scopes a consent covers, or does not.
abbrev pub issue_if :
    Bool
    → User
    → AuthorizeRequest
    → Drawn
    → List OauthScope
    → Option String
    → Action OauthStore (Option Redirect)
issue_if false user request drawn scopes tournament_uid = pass none
issue_if true user request drawn scopes tournament_uid = do
  writes (insert_oauth_code (code_for drawn user request scopes tournament_uid))
  pass (some (Redirect.with_code drawn.code))

-- What an approval writes: the consent, then the code.
abbrev pub approve :
    User → AuthorizeRequest → Drawn → List OauthScope → Option String → Action OauthStore Redirect
approve user request drawn scopes tournament_uid = do
  writes (upsert_oauth_consent (consent_for drawn user request.client_id scopes tournament_uid))
  writes (insert_oauth_code (code_for drawn user request scopes tournament_uid))
  pass (Redirect.with_code drawn.code)

module _ (tournaments : String → Option Tournament) where
  -- A code at once where a consent covers the scopes; `none` is the answer that asks for one.
  unfoldable pub authorize_get :
      User → Bool → String → String → AuthorizeRequest → Drawn → Action OauthStore (Option Redirect)
  unfolding checked_scopes grant_tournament
  authorize_get user first_party response_type challenge_method request drawn = do
    require_first_party first_party consent_detail
    raise_if (not (response_type == "code")) 400 "Only response_type=code is supported"
    raise_if (not (nonempty_text request.code_challenge) || not (challenge_method == "S256")) 400
        "PKCE with S256 is required"
    client ← reads (get_oauth_client_by_client_id request.client_id)
    scopes ← settled (checked_scopes client request)
    event ← settled (grant_tournament tournaments scopes request.tournament)
    consent ← reads (get_oauth_consent user.uid request.client_id (uid_of event))
    issue_if (covers consent scopes) user request drawn scopes (uid_of event)

  -- The rest of `authorize_post`, by the user's answer.
  abbrev pub answer :
      Bool → User → AuthorizeRequest → Drawn → List OauthScope → Action OauthStore Redirect
  answer false user request drawn scopes = pass Redirect.access_denied
  answer true user request drawn scopes = do
    raise_if (not (nonempty_text request.code_challenge)) 400 "PKCE code_challenge is required"
    event ← settled (grant_tournament tournaments scopes request.tournament)
    approve user request drawn scopes (uid_of event)

  unfoldable pub authorize_post :
      User → Bool → AuthorizeRequest → Drawn → Action OauthStore Redirect
  unfolding checked_scopes grant_tournament
  authorize_post user first_party request drawn = do
    require_first_party first_party consent_detail
    client ← reads (get_oauth_client_by_client_id request.client_id)
    scopes ← settled (checked_scopes client request)
    answer request.approved user request drawn scopes
