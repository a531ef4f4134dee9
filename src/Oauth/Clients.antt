-- ===== src/Oauth/Clients.antt =====
-- The management of clients in backend/src/routes/oauth.py.
use archon_vibe.Prelude.{
  String, Bool, true, false, not, ◌&&◌, ◌||◌, Option, none, some, List, [], ◌∷◌, ◌==◌, string_eq,
  opt_beq, member, nonempty_text, filter, if◌then◌else◌,
}
use archon_vibe.Prelude.Text.{strip}
use archon_vibe.Prelude.Outcome.{Outcome, returned, raised, raise}
use archon_vibe.Prelude.Action.{Action, settled, reads, writes, pass, raise_if, given, ◌>>=◌, ◌>>◌}
use archon_vibe.Models.OauthKinds.{OauthScope, oauth_scope_eq}
use archon_vibe.Models.Users.{Instant, User}
use archon_vibe.Models.Oauth.{OauthClient}
use archon_vibe.Permissions.Checks.{can_manage_oauth_clients}
use archon_vibe.Oauth.Store.{
  OauthStore, insert_oauth_client, update_oauth_client, get_oauth_client_by_client_id,
  revoke_oauth_tokens_with_scopes, strip_oauth_consent_scopes,
}
use archon_vibe.Oauth.Grant.{scopes_of, is_subset}
use archon_vibe.Oauth.Authorize.{require_first_party}

pub record ClientRules : Type 0 where
  pub scopes : List OauthScope
  pub email_purpose : Option String

abbrev no_uris : List String → Bool
no_uris [] = true
no_uris (u ∷ us) = false

-- `set(scopes) == {OAuthScope.API_READ}`
abbrev pub is_api_only : List OauthScope → Bool
is_api_only scopes =
    member OauthScope.api_read scopes && is_subset scopes (OauthScope.api_read ∷ [])

abbrev rules_for : List String → String → Outcome (List OauthScope) → Outcome ClientRules
rules_for uris purpose (raised e) = raised e
rules_for uris purpose (returned scopes) =
    if no_uris uris && not (is_api_only scopes)
    then raise 400 "At least one redirect_uri is required"
    else if not (member OauthScope.profile_email scopes)
    then returned (record { scopes = scopes; email_purpose = none })
    else if not (nonempty_text (strip purpose))
    then raise 400 "profile:email requires a statement of what the app does with it"
    else returned (record { scopes = scopes; email_purpose = some (strip purpose) })

-- `_client_rules`
unfoldable pub client_rules : List String → List String → String → Outcome ClientRules
unfolding scopes_of strip
client_rules uris scope_texts purpose = rules_for uris purpose (scopes_of scope_texts)

abbrev pub require_oauth_admin : User → Bool → Action OauthStore (Unit {0})
require_oauth_admin user first_party = do
  require_first_party first_party "Client management requires a first-party session"
  raise_if (not (can_manage_oauth_clients user)) 403 "Only IC or DEV can manage OAuth clients"

-- What is drawn for a new client.
pub record NewClient : Type 0 where
  pub uid : String
  pub client_id : String
  pub secret_hash : String
  pub now : Instant

unfoldable pub register_client :
    User
    → Bool
    → String
    → List String
    → List String
    → String
    → NewClient
    → Action OauthStore ClientRules
register_client user first_party name uris scope_texts purpose drawn = do
  require_oauth_admin user first_party
  raise_if (not (nonempty_text (strip name))) 400 "Client name is required"
  rules ← settled (client_rules uris scope_texts purpose)
  writes (
      insert_oauth_client (record {
        uid = drawn.uid;
        modified = drawn.now;
        name = strip name;
        client_id = drawn.client_id;
        client_secret_hash = drawn.secret_hash;
        redirect_uris = uris;
        scopes = rules.scopes;
        created_by_uid = user.uid;
        active = true;
        email_purpose = rules.email_purpose;
      }))
  pass rules

abbrev pub owned_by : User → Option OauthClient → Option OauthClient
owned_by user none = none
owned_by user (some c) = if c.created_by_uid == user.uid then some c else none

abbrev pub active_owned_by : User → Option OauthClient → Option OauthClient
active_owned_by user none = none
active_owned_by user (some c) =
    if not c.active || not (c.created_by_uid == user.uid) then none else some c

abbrev purpose_text : Option String → String
purpose_text none = ""
purpose_text (some s) = s

-- `email_purpose.strip() not in ("", client.email_purpose)`
abbrev pub changes_purpose : OauthClient → String → Bool
changes_purpose client purpose =
    nonempty_text (strip purpose) && not (opt_beq (some (strip purpose)) client.email_purpose)

abbrev pub keeps_email : OauthClient → Bool
keeps_email client = member OauthScope.profile_email client.scopes

abbrev pub removed_scopes : List OauthScope → List OauthScope → List OauthScope
removed_scopes old new = filter (λ s. not (member s new)) old

abbrev pub drop_scopes : String → List OauthScope → OauthStore → OauthStore
drop_scopes client_id [] st = st
drop_scopes client_id (s ∷ removed) st =
    strip_oauth_consent_scopes client_id (s ∷ removed)
      (revoke_oauth_tokens_with_scopes client_id (s ∷ removed) st)

abbrev pub edited : OauthClient → Instant → List String → ClientRules → OauthClient
edited client now uris rules = record client {
  modified = now;
  redirect_uris = uris;
  scopes = rules.scopes;
  email_purpose = rules.email_purpose;
}

unfoldable pub edit_client :
    User
    → Bool
    → String
    → List String
    → List String
    → String
    → Instant
    → Action OauthStore ClientRules
edit_client user first_party client_id uris scope_texts purpose now = do
  require_oauth_admin user first_party
  found ← reads (get_oauth_client_by_client_id client_id)
  client ← given (active_owned_by user found) 404 "Client not found"
  raise_if (keeps_email client && changes_purpose client purpose) 400
      "The email purpose is fixed: members consented to it"
  rules ← settled (
      client_rules uris scope_texts
        (if keeps_email client then purpose_text client.email_purpose else purpose))
  writes (update_oauth_client (edited client now uris rules))
  writes (drop_scopes client_id (removed_scopes client.scopes rules.scopes))
  pass rules

unfoldable pub regenerate_secret :
    User → Bool → String → String → Instant → Action OauthStore (Unit {0})
regenerate_secret user first_party client_id secret_hash now = do
  require_oauth_admin user first_party
  found ← reads (get_oauth_client_by_client_id client_id)
  client ← given (owned_by user found) 404 "Client not found"
  writes (update_oauth_client (record client { modified = now; client_secret_hash = secret_hash }))

unfoldable pub deactivate_client : User → Bool → String → Instant → Action OauthStore (Unit {0})
deactivate_client user first_party client_id now = do
  require_oauth_admin user first_party
  found ← reads (get_oauth_client_by_client_id client_id)
  client ← given (owned_by user found) 404 "Client not found"
  writes (update_oauth_client (record client { modified = now; active = false }))
