-- ===== src/Oauth/Grant.antt =====
-- What an authorization request may ask for: `_parse_scopes`, `_grant_tournament`, and the checks
-- and codes of `authorize_get` and `authorize_post` of backend/src/routes/oauth.py.
use archon_vibe.Prelude.{
  ℕ, String, ◌+◌, ◌*◌, Bool, false, not, ◌&&◌, Option, none, some, List, [], ◌∷◌, ◌==◌, string_eq,
  member, nonempty_text, if◌then◌else◌, ◌<>◌,
}
use archon_vibe.Prelude.Text.{words}
use archon_vibe.Prelude.Rows.{every}
use archon_vibe.Prelude.Outcome.{Outcome, returned, raised, raise, raise_if, given, ◌>>=◌, ◌>>◌}
use archon_vibe.Models.Enums.{of_value, value_of}
use archon_vibe.Models.OauthKinds.{OauthScope, oauth_scope_eq, oauth_scope_values}
use archon_vibe.Models.TournamentKinds.{TournamentState, tournament_state_eq}
use archon_vibe.Models.Tournaments.{Tournament}
use archon_vibe.Models.Users.{Instant, User}
use archon_vibe.Models.Oauth.{OauthClient, OauthAuthorizationCode}

abbrev pub scope_text : OauthScope → String
scope_text s = value_of oauth_scope_values s

abbrev cons_scope : OauthScope → Outcome (List OauthScope) → Outcome (List OauthScope)
cons_scope s (returned ss) = returned (s ∷ ss)
cons_scope s (raised e) = raised e

unfoldable pub scopes_of : List String → Outcome (List OauthScope)
unfolding of_value
scopes_of [] = returned []
scopes_of (w ∷ ws) =
    let rest = scopes_of ws in
    elim (of_value oauth_scope_values w) [
      | none ↦ raise 400 ("Invalid scope: " <> w)
      | some s ↦ cons_scope s rest
    ]

-- `_parse_scopes`
unfoldable pub parse_scopes : String → Outcome (List OauthScope)
unfolding words scopes_of
parse_scopes text = scopes_of (words text)

-- `_grant_tournament`: the event of the grant, if it names one.
unfoldable pub grant_tournament :
    (String → Option Tournament) → List OauthScope → String → Outcome (Option Tournament)
grant_tournament tournaments scopes uid =
    if not (member OauthScope.event_run scopes) && nonempty_text uid
    then raise 400 "tournament requires the event:run scope"
    else if not (nonempty_text uid)
    then returned none
    else elim (tournaments uid) [
      | none ↦ raise 400 "Unknown tournament"
      | some t ↦
          if t.state == TournamentState.finished
          then raise 400 "Tournament is finished"
          else returned (some t)
    ]

abbrev pub uid_of : Option Tournament → Option String
uid_of none = none
uid_of (some t) = some t.uid

-- `set(xs) <= set(ys)`
abbrev pub is_subset : List OauthScope → List OauthScope → Bool
is_subset xs ys = every (λ s. member s ys) xs

-- `not client or not client.active`
abbrev pub active_client : Option OauthClient → Option OauthClient
active_client none = none
active_client (some c) = if c.active then some c else none

abbrev pub second : ℕ
second = 1000000

abbrev pub auth_code_lifetime : ℕ
auth_code_lifetime = 60 * second

-- The body of the consent screen's request, and the values drawn for it.
pub record AuthorizeRequest : Type 0 where
  pub client_id : String
  pub redirect_uri : String
  pub scope : String
  pub code_challenge : String
  pub tournament : String
  pub approved : Bool

pub record Drawn : Type 0 where
  pub consent_uid : String
  pub code_uid : String
  pub code : String
  pub now : Instant

abbrev pub code_for :
    Drawn → User → AuthorizeRequest → List OauthScope → Option String → OauthAuthorizationCode
code_for drawn user request scopes tournament_uid = record {
  uid = drawn.code_uid;
  modified = drawn.now;
  code = drawn.code;
  client_id = request.client_id;
  user_uid = user.uid;
  redirect_uri = request.redirect_uri;
  scopes = scopes;
  tournament_uid = tournament_uid;
  code_challenge = request.code_challenge;
  expires_at = drawn.now + auth_code_lifetime;
  used = false;
}

-- Where the user is sent: back with a code, or back with the refusal.
pub data Redirect : Type 0 where
  with_code : String → Redirect
  access_denied : Redirect

-- The checks that both authorization handlers make of the client and of the scopes.
unfoldable pub checked_scopes : Option OauthClient → AuthorizeRequest → Outcome (List OauthScope)
unfolding parse_scopes every
checked_scopes found request = do
  client ← given (active_client found) 400 "Invalid client_id"
  raise_if (not (member request.redirect_uri client.redirect_uris)) 400 "Invalid redirect_uri"
  scopes ← parse_scopes request.scope
  raise_if (not (is_subset scopes client.scopes)) 400 "Scope not allowed for this client"
  raise_if (member OauthScope.api_read scopes) 400 "api:read is a client_credentials scope"
  returned scopes
