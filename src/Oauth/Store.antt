-- ===== src/Oauth/Store.antt =====
-- backend/src/db_oauth.py: the four tables and the statements over them.
use archon_vibe.Prelude.{
  String, Bool, true, false, not, ◌&&◌, ◌||◌, Option, none, some, List, [], ◌∷◌, ◌++◌, ◌==◌,
  string_eq, opt_beq, is_some, any, filter, member,
}
use archon_vibe.Prelude.Rows.{find, update}
use archon_vibe.Models.OauthKinds.{OauthScope, oauth_scope_eq}
use archon_vibe.Models.Oauth.{OauthClient, OauthAuthorizationCode, OauthToken, OauthConsent}

-- A row of `oauth_consents`: its key, and the data, which names a uid of its own.
pub record ConsentRow : Type 0 where
  pub key : String
  pub consent : OauthConsent

pub record OauthStore : Type 0 where
  pub clients : List OauthClient
  pub codes : List OauthAuthorizationCode
  pub tokens : List OauthToken
  pub consents : List ConsentRow

abbrev pub insert_oauth_client : OauthClient → OauthStore → OauthStore
insert_oauth_client c st = record st { clients = st.clients ++ c ∷ [] }

abbrev pub update_oauth_client : OauthClient → OauthStore → OauthStore
update_oauth_client c st = record st { clients = update (λ x. x.uid == c.uid) (λ x. c) st.clients }

abbrev pub get_oauth_client_by_client_id : String → OauthStore → Option OauthClient
get_oauth_client_by_client_id id st = find (λ c. c.client_id == id) st.clients

abbrev pub insert_oauth_code : OauthAuthorizationCode → OauthStore → OauthStore
insert_oauth_code c st = record st { codes = st.codes ++ c ∷ [] }

abbrev pub get_oauth_code : String → OauthStore → Option OauthAuthorizationCode
get_oauth_code code st = find (λ c. c.code == code) st.codes

abbrev pub update_oauth_code : OauthAuthorizationCode → OauthStore → OauthStore
update_oauth_code c st = record st { codes = update (λ x. x.uid == c.uid) (λ x. c) st.codes }

abbrev pub insert_oauth_token : OauthToken → OauthStore → OauthStore
insert_oauth_token t st = record st { tokens = st.tokens ++ t ∷ [] }

abbrev pub get_oauth_token_by_jti : String → OauthStore → Option OauthToken
get_oauth_token_by_jti jti st = find (λ t. t.token_jti == jti) st.tokens

abbrev pub update_oauth_token : OauthToken → OauthStore → OauthStore
update_oauth_token t st = record st { tokens = update (λ x. x.uid == t.uid) (λ x. t) st.tokens }

abbrev pub revoke : OauthToken → OauthToken
revoke t = record t { revoked = true }

-- The rows that `revoke_oauth_token_chain` finds.
abbrev pub in_chain : String → OauthToken → Bool
in_chain parent t = opt_beq t.parent_token_uid (some parent) || t.uid == parent

abbrev pub revoke_oauth_token_chain : String → OauthStore → OauthStore
revoke_oauth_token_chain parent st = record st {
  tokens = update (in_chain parent) revoke st.tokens;
}

abbrev pub is_consent_of : String → String → Option String → OauthConsent → Bool
is_consent_of user_uid client_id tournament_uid c =
    c.user_uid == user_uid && (c.client_id == client_id && opt_beq c.tournament_uid tournament_uid)

abbrev pub consent_of : Option ConsentRow → Option OauthConsent
consent_of none = none
consent_of (some r) = some r.consent

abbrev pub get_oauth_consent : String → String → Option String → OauthStore → Option OauthConsent
get_oauth_consent user_uid client_id tournament_uid st =
    consent_of (find (λ r. is_consent_of user_uid client_id tournament_uid r.consent) st.consents)

-- The update looks for a row whose key is the uid that the old data names.
abbrev pub upsert_oauth_consent : OauthConsent → OauthStore → OauthStore
upsert_oauth_consent c st = elim (get_oauth_consent c.user_uid c.client_id c.tournament_uid st) [
  | some old ↦ record st {
    consents = update (λ r. r.key == old.uid) (λ r. record r { consent = c }) st.consents;
  }
  | none ↦ record st { consents = st.consents ++ record { key = c.uid; consent = c } ∷ [] }
]

abbrev pub is_authorization_of : String → String → OauthConsent → Bool
is_authorization_of user_uid client_id c = c.user_uid == user_uid && c.client_id == client_id

abbrev pub delete_oauth_consent : String → String → OauthStore → OauthStore
delete_oauth_consent user_uid client_id st = record st {
  consents = filter (λ r. not (is_authorization_of user_uid client_id r.consent)) st.consents;
}

-- A live token that the client holds for the user.
abbrev pub is_live_token_of : String → String → OauthToken → Bool
is_live_token_of user_uid client_id t =
    t.user_uid == user_uid && (t.client_id == client_id && not t.revoked)

abbrev pub revoke_oauth_tokens_for_user_client : String → String → OauthStore → OauthStore
revoke_oauth_tokens_for_user_client user_uid client_id st = record st {
  tokens = update (is_live_token_of user_uid client_id) revoke st.tokens;
}

abbrev pub has_scope : List OauthScope → List OauthScope → Bool
has_scope wanted scopes = any (λ s. member s wanted) scopes

abbrev pub revoke_oauth_tokens_with_scopes : String → List OauthScope → OauthStore → OauthStore
revoke_oauth_tokens_with_scopes client_id scopes st = record st {
  tokens =
      update (λ t. t.client_id == client_id && (not t.revoked && has_scope scopes t.scopes)) revoke
        st.tokens;
}

abbrev pub is_void_consent : String → OauthConsent → Bool
is_void_consent client_id c =
    c.client_id == client_id
    && (elim c.scopes [ [] ↦ true | s ∷ rest ↦ false ]
        || (is_some c.tournament_uid && not (member OauthScope.event_run c.scopes)))

abbrev pub without_scopes : List OauthScope → OauthConsent → OauthConsent
without_scopes scopes c = record c { scopes = filter (λ s. not (member s scopes)) c.scopes }

abbrev pub strip_oauth_consent_scopes : String → List OauthScope → OauthStore → OauthStore
strip_oauth_consent_scopes client_id scopes st = record st {
  consents =
      filter (λ r. not (is_void_consent client_id r.consent))
        (update (λ r. r.consent.client_id == client_id && has_scope scopes r.consent.scopes)
          (λ r. record r { consent = without_scopes scopes r.consent }) st.consents);
}
