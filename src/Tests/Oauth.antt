-- ===== src/Tests/Oauth.antt =====
-- An app of Carol's that Alice has authorized, its codes and tokens.
use archon_vibe.Prelude.{
  ◌+◌, ◌*◌, arith, if◌then◌else◌, String, ◌≡◌, refl, ap, true, false, Option, none, some, List, [],
  ◌∷◌, ◌++◌, ◌==◌, string_eq, if◌then◌else◌,
}
use archon_vibe.Prelude.Text.{words, split_word, is_space, join_words, concat, strip}
use archon_vibe.Prelude.Outcome.{Outcome, returned, is_refused}
use archon_vibe.Prelude.Rows.{find, update, every}
use archon_vibe.Models.OauthKinds.{OauthScope, oauth_scope_eq}
use archon_vibe.Models.Roles.{Role}
use archon_vibe.Models.Tournaments.{Tournament}
use archon_vibe.Models.Oauth.{OauthClient, OauthAuthorizationCode, OauthToken, OauthConsent}
use archon_vibe.Models.Enums.{of_value, value_of}
use archon_vibe.Models.Users.{User}
use archon_vibe.Oauth.Store.{
  OauthStore, insert_oauth_token, update_oauth_code, update_oauth_token, get_oauth_code,
  get_oauth_consent, upsert_oauth_consent,
}
use archon_vibe.Oauth.Grant.{scopes_of}
use archon_vibe.Oauth.Claims.{Crypto, Claims, decoded, invalid}
use archon_vibe.Oauth.Tokens.{
  TokenRequest, Minted, TokenPair, Grant, access_record, refresh_record, grant_of_code,
  grant_of_claims, issue_token_pair, reissue, rotate, redeem, check_code, handle_authorization_code,
  handle_refresh_token,
}
use archon_vibe.Oauth.Consents.{revoke_consent}
use archon_vibe.Oauth.Clients.{ClientRules, client_rules, edit_client}
use archon_vibe.Oauth.Exchange.{
  IsRedeemable, access_for, refresh_for, claims_of_code, handle_authorization_code_lem,
  handle_authorization_code-once, handle_authorization_code-grants,
}
use archon_vibe.Oauth.Replay.{handle_refresh_token-once}
use archon_vibe.Oauth.Withdrawal.{revoke_consent-exchange, revoke_consent-refresh}
use archon_vibe.Oauth.Narrowing.{is_within, edit_client-is_within}
use archon_vibe.Tests.Data.{alice, carol}

abbrev read_and_run : List OauthScope
read_and_run = OauthScope.profile_read ∷ OauthScope.event_run ∷ []

abbrev app : OauthClient
app = record {
  uid = "c1";
  modified = 0;
  name = "Seating app";
  client_id = "app";
  client_secret_hash = "hash";
  redirect_uris = "https://app" ∷ [];
  scopes = read_and_run;
  created_by_uid = "carol";
  active = true;
  email_purpose = none;
}

abbrev issued_code : OauthAuthorizationCode
issued_code = record {
  uid = "k1";
  modified = 0;
  code = "code";
  client_id = "app";
  user_uid = "alice";
  redirect_uri = "https://app";
  scopes = read_and_run;
  tournament_uid = none;
  code_challenge = "verifier";
  expires_at = 60;
  used = false;
}

abbrev consented : OauthConsent
consented = record {
  uid = "s1";
  modified = 0;
  user_uid = "alice";
  client_id = "app";
  scopes = read_and_run;
  tournament_uid = none;
}

abbrev alice_claims : Claims
alice_claims = record {
  sub = "alice";
  kind = some "oauth_refresh";
  scope = "profile:read event:run";
  client_id = some "app";
  jti = "j2";
  tournament = none;
  issued_at = 30;
  expires_at = 90;
}

-- A token is its identifier, and one text decodes.
abbrev plain : Crypto
plain = record {
  verify_secret = λ hash secret. hash == secret;
  s256 = some;
  sign = λ c. c.jti;
  sign_client = λ c. c.client_id;
  decode = λ s. if s == "j2" then decoded alice_claims else invalid;
  decode_unexpiring = λ s. none;
}

abbrev no_events : String → Option Tournament
no_events uid = none

abbrev before : OauthStore
before = record {
  clients = app ∷ [];
  codes = issued_code ∷ [];
  tokens = [];
  consents = record { key = "s1"; consent = consented } ∷ [];
}

abbrev request : TokenRequest
request = record {
  grant_type = "authorization_code";
  client_id = "app";
  client_secret = "hash";
  code = "code";
  redirect_uri = "https://app";
  code_verifier = "verifier";
  refresh_token = "j2";
  scope = "";
}

abbrev first : Minted
first = record {
  access_uid = "a1";
  refresh_uid = "r1";
  access_jti = "j1";
  refresh_jti = "j2";
  now = 30;
}

abbrev next : Minted
next = record {
  access_uid = "a2";
  refresh_uid = "r2";
  access_jti = "j3";
  refresh_jti = "j4";
  now = 40;
}

abbrev grant : Grant
grant = grant_of_code plain no_events app issued_code

abbrev exchanged : OauthStore
exchanged = insert_oauth_token (refresh_record first grant none) (
    insert_oauth_token (access_record first grant none)
      (update_oauth_code (record issued_code { modified = 30; used = true }) before))

abbrev pair_of : Minted → TokenPair
pair_of m = record {
  access_token = m.access_jti;
  refresh_token = m.refresh_jti;
  expires_in = 3600;
  scope = "profile:read event:run";
}

exchange_works :
    handle_authorization_code plain no_events request app 30 first before
    ≡ (exchanged, returned (pair_of first))
unfolding handle_authorization_code redeem check_code issue_token_pair find update every join_words
    concat value_of
exchange_works = refl

abbrev held : OauthToken
held = refresh_record first grant none

abbrev alice_grant : Grant
alice_grant = grant_of_claims plain no_events app alice_claims read_and_run

abbrev refreshed : OauthStore
refreshed = insert_oauth_token (refresh_record next alice_grant (some "a1")) (
    insert_oauth_token (access_record next alice_grant (some "a1"))
      (update_oauth_token (record held { modified = 40; revoked = true }) exchanged))

refresh_works :
    handle_refresh_token plain no_events request app 40 next exchanged
    ≡ (refreshed, returned (pair_of next))
unfolding handle_refresh_token rotate reissue scopes_of words split_word is_space of_value
    issue_token_pair find update every join_words concat value_of
refresh_works = refl

handle_authorization_code_lem_example :
    (c : OauthAuthorizationCode) × (get_oauth_code "code" before ≡ some c)
    × IsRedeemable plain no_events request app 30 before c
    × (exchanged.codes
        ≡ update (λ x. x.uid == c.uid) (λ x. record c { modified = 30; used = true }) before.codes)
    × (exchanged.tokens
        ≡ (before.tokens ++ access_for first app c ∷ []) ++ refresh_for first app c ∷ [])
    × ((pair_of first).access_token
        ≡ plain.sign (claims_of_code app c "oauth_access" "j1" 30 (30 + 3600 * 1000000)))
    × ((pair_of first).refresh_token
        ≡ plain.sign (claims_of_code app c "oauth_refresh" "j2" 30 (30 + 2592000 * 1000000)))
handle_authorization_code_lem_example =
    handle_authorization_code_lem plain no_events request app 30 first before exchanged
      (pair_of first) exchange_works

issued_code-IsRedeemable : IsRedeemable plain no_events request app 30 before issued_code
unfolding find every
issued_code-IsRedeemable = record {
  fresh = refl;
  client_id = refl;
  redirect = refl;
  registered = refl;
  scopes = refl;
  in_time = ground arith;
  pkce = refl;
  consented = refl;
}

handle_authorization_code-grants_example :
    is_refused (handle_authorization_code plain no_events request app 30 first before).1 ≡ false
unfolding find
handle_authorization_code-grants_example =
    handle_authorization_code-grants plain no_events request app 30 first before issued_code refl
      refl refl refl issued_code-IsRedeemable

handle_authorization_code-once_example :
    is_refused (handle_authorization_code plain no_events request app 31 next exchanged).1 ≡ true
handle_authorization_code-once_example =
    handle_authorization_code-once plain no_events request request app app 30 31 first next before
      exchanged (pair_of first) exchange_works refl

handle_refresh_token-once_example :
    is_refused (handle_refresh_token plain no_events request app 41 first refreshed).1 ≡ true
handle_refresh_token-once_example =
    handle_refresh_token-once plain no_events request request app app 40 41 next first exchanged
      refreshed (pair_of next) refresh_works refl

revoke_consent-exchange_example :
    is_refused
      (handle_authorization_code plain no_events request app 30 first
        (revoke_consent alice true "app" before).0).1
    ≡ true
unfolding find
revoke_consent-exchange_example =
    revoke_consent-exchange plain no_events alice app request issued_code 30 first before refl refl

revoke_consent-refresh_example :
    is_refused
      (handle_refresh_token plain no_events request app 40 next
        (revoke_consent alice true "app" exchanged).0).1
    ≡ true
revoke_consent-refresh_example =
    revoke_consent-refresh plain no_events alice app request alice_claims 40 next exchanged refl
      refl

abbrev narrowed : OauthClient
narrowed = record app { modified = 50; scopes = OauthScope.profile_read ∷ [] }

abbrev keeper : User
keeper = record carol { roles = Role.dev ∷ [] }

abbrev rules : ClientRules
rules = record { scopes = OauthScope.profile_read ∷ []; email_purpose = none }

abbrev edit : OauthStore × Outcome ClientRules
edit = edit_client keeper true "app" ("https://app" ∷ []) ("profile:read" ∷ []) "" 50 exchanged

edit_works : edit.1 ≡ returned rules
unfolding edit_client client_rules scopes_of of_value find update every strip
    archon_vibe.Permissions.Checks.check archon_vibe.Permissions.Engine.check
    archon_vibe.Permissions.Checks.user_to_context
edit_works = refl

edit_client-is_within_example : is_within "app" rules.scopes edit.0.tokens ≡ true
unfolding find update every
edit_client-is_within_example =
    edit_client-is_within keeper true "app" ("https://app" ∷ []) ("profile:read" ∷ []) "" 50
      exchanged edit.0 app rules refl refl (ap (λ o. (edit.0, o)) edit_works)

-- A scope that a third approval adds is not kept: the row is looked for by the second one's uid.
abbrev approved : String → List OauthScope → OauthConsent
approved uid scopes = record consented { uid = uid; scopes = scopes }

abbrev no_consent : OauthStore
no_consent = record before { consents = [] }

third_approval_lost :
    get_oauth_consent "alice" "app" none (
      upsert_oauth_consent (approved "s3" read_and_run) (
        upsert_oauth_consent
          (approved "s2" (OauthScope.profile_read ∷ []))
          (upsert_oauth_consent (approved "s1" []) no_consent)))
    ≡ some (approved "s2" (OauthScope.profile_read ∷ []))
unfolding find update
third_approval_lost = refl
