-- ===== src/Oauth/Withdrawal.antt =====
-- What remains when a member takes back the authorization of an app.
use archon_vibe.Prelude.{
  String, ◌≡◌, refl, sym, subst, true, not, Option, none, some, List, [], ◌∷◌, arith, ◌==◌,
  string_eq, Option-cases, inl, inr, filter,
}
use archon_vibe.Prelude.Rows.{find, update, every}
use archon_vibe.Prelude.Outcome.{is_refused}
use archon_vibe.Models.Tournaments.{Tournament}
use archon_vibe.Models.Users.{Instant, User}
use archon_vibe.Models.Oauth.{OauthClient, OauthToken, OauthAuthorizationCode}
use archon_vibe.Oauth.Store.{
  OauthStore, ConsentRow, get_oauth_code, get_oauth_token_by_jti, get_oauth_consent, is_consent_of,
  consent_of, is_authorization_of, is_live_token_of, revoke,
}
use archon_vibe.Oauth.Claims.{Claims, decoded, Crypto}
use archon_vibe.Oauth.Tokens.{
  TokenRequest, Minted, handle_authorization_code, redeem, check_code, handle_refresh_token, rotate,
}
use archon_vibe.Oauth.Consents.{revoke_consent}

find_consent-filter :
    (user client : String) (event : Option String) (rows : List ConsentRow)
    → consent_of (
        find
          (λ r. is_consent_of user client event r.consent)
          (filter (λ r. not (is_authorization_of user client r.consent)) rows))
      ≡ none
unfolding find
find_consent-filter user client event [] = refl
find_consent-filter user client event (r ∷ rows) =
    ground (arith, find_consent-filter user client event rows)

update-revoke :
    (user client : String) (rows : List OauthToken)
    → every
        (λ t. not (is_live_token_of user client t))
        (update (is_live_token_of user client) revoke rows)
      ≡ true
unfolding every update
update-revoke user client [] = refl
update-revoke user client (t ∷ rows) = ground (arith, update-revoke user client rows)

revoke_consent-codes :
    (user : User) (client_id : String) (st : OauthStore)
    → (revoke_consent user true client_id st).0.codes ≡ st.codes
unfolding revoke_consent
revoke_consent-codes user client_id st = ground arith

-- Taking back an authorization leaves the app no live token of the member, and no consent, for the
-- account or for any event, whether or not the call ends in a 404.
pub revoke_consent_lem :
    (user : User) (client_id : String) (event : Option String) (st : OauthStore)
    → (every
          (λ t. not (is_live_token_of user.uid client_id t))
          (revoke_consent user true client_id st).0.tokens
        ≡ true)
      × (get_oauth_consent user.uid client_id event (revoke_consent user true client_id st).0
          ≡ none)
unfolding revoke_consent
revoke_consent_lem user client_id event st = (
  ground (arith, update-revoke user.uid client_id st.tokens),
  ground (arith, find_consent-filter user.uid client_id event st.consents),
)

-- Once an authorization is taken back, the app can exchange no code of the member's that is still
-- out.
pub revoke_consent-exchange :
    (crypto : Crypto) (tournaments : String → Option Tournament) (user : User)
    (client : OauthClient) (body : TokenRequest) (c : OauthAuthorizationCode) (now : Instant)
    (minted : Minted) (st : OauthStore)
    → get_oauth_code body.code st ≡ some c
    → c.user_uid ≡ user.uid
    → is_refused
        (handle_authorization_code crypto tournaments body client now minted
          (revoke_consent user true client.client_id st).0).1
      ≡ true
unfolding handle_authorization_code redeem check_code
revoke_consent-exchange crypto tournaments user client body c now minted st f u =
    let st1 = (revoke_consent user true client.client_id st).0 in
    let gone : get_oauth_consent c.user_uid client.client_id c.tournament_uid st1 ≡ none =
      subst (λ x. get_oauth_consent x client.client_id c.tournament_uid st1 ≡ none) (sym u)
        (revoke_consent_lem user client.client_id c.tournament_uid st).1 in
    let still : get_oauth_code body.code st1 ≡ some c =
      subst (λ x. find (λ r. r.code == body.code) x ≡ some c)
        (sym (revoke_consent-codes user client.client_id st)) f in
    ground (arith, gone, still)

rotate-refused :
    (crypto : Crypto) (tournaments : String → Option Tournament) (client : OauthClient)
    (claims : Claims) (t : OauthToken) (now : Instant) (minted : Minted) (st : OauthStore)
    → get_oauth_consent claims.sub client.client_id claims.tournament st ≡ none
    → is_refused (rotate crypto tournaments client claims t now minted st).1 ≡ true
unfolding rotate
rotate-refused crypto tournaments client claims t now minted st gone = ground (arith, gone)

-- Once an authorization is taken back, no refresh token that the app holds for the member gives a
-- pair any more.
pub revoke_consent-refresh :
    (crypto : Crypto) (tournaments : String → Option Tournament) (user : User)
    (client : OauthClient) (body : TokenRequest) (claims : Claims) (now : Instant) (minted : Minted)
    (st : OauthStore)
    → crypto.decode body.refresh_token ≡ decoded claims
    → claims.sub ≡ user.uid
    → is_refused
        (handle_refresh_token crypto tournaments body client now minted
          (revoke_consent user true client.client_id st).0).1
      ≡ true
unfolding handle_refresh_token
revoke_consent-refresh crypto tournaments user client body claims now minted st d u =
    let st1 = (revoke_consent user true client.client_id st).0 in
    let gone : get_oauth_consent claims.sub client.client_id claims.tournament st1 ≡ none =
      subst (λ x. get_oauth_consent x client.client_id claims.tournament st1 ≡ none) (sym u)
        (revoke_consent_lem user client.client_id claims.tournament st).1 in
    elim (Option-cases (get_oauth_token_by_jti claims.jti st1)) [
      | inl e ↦ ground (arith, d, e)
      | inr (t, e) ↦
          ground
            (arith, d, e, rotate-refused crypto tournaments client claims t now minted st1 gone)
    ]
