-- ===== src/Oauth/Exchange.antt =====
-- What the exchange of an authorization code takes and gives, and that a code is good once.
use archon_vibe.Prelude.{
  String, ◌≡◌, ◌≤◌, ◌+◌, ◌*◌, map, if◌then◌else◌, given_text, ap, ◌∙◌, true, false, Option, none,
  some, [], ◌∷◌, ◌++◌, arith, ◌==◌, string_eq, ==-iff, ==-refl, Option-cases, inl, inr, is_some,
  nonempty_text, member,
}
use archon_vibe.Prelude.Text.{join_words}
use archon_vibe.Prelude.Rows.{find, update, find-holds, find-update}
use archon_vibe.Prelude.Outcome.{returned, is_refused}
use archon_vibe.Models.Tournaments.{Tournament}
use archon_vibe.Models.Users.{Instant}
use archon_vibe.Models.Oauth.{OauthClient, OauthAuthorizationCode, OauthToken, access, refresh}
use archon_vibe.Oauth.Store.{OauthStore, get_oauth_code, get_oauth_consent}
use archon_vibe.Oauth.Grant.{is_subset, scope_text}
use archon_vibe.Oauth.Claims.{Claims, Crypto}
use archon_vibe.Oauth.Tokens.{
  TokenRequest, Minted, TokenPair, issue_token_pair, check_code, redeem, handle_authorization_code,
}

-- The record of an access token for the user, scopes and event of a code, good for an hour.
abbrev pub access_for : Minted → OauthClient → OauthAuthorizationCode → OauthToken
access_for minted client c = record {
  uid = minted.access_uid;
  modified = minted.now;
  token_jti = minted.access_jti;
  client_id = client.client_id;
  user_uid = c.user_uid;
  scopes = c.scopes;
  tournament_uid = c.tournament_uid;
  token_type = access;
  expires_at = minted.now + 3600 * 1000000;
  revoked = false;
  parent_token_uid = none;
}

-- That of a refresh token, good for thirty days, in the lineage of the access token.
abbrev pub refresh_for : Minted → OauthClient → OauthAuthorizationCode → OauthToken
refresh_for minted client c = record {
  uid = minted.refresh_uid;
  modified = minted.now;
  token_jti = minted.refresh_jti;
  client_id = client.client_id;
  user_uid = c.user_uid;
  scopes = c.scopes;
  tournament_uid = c.tournament_uid;
  token_type = refresh;
  expires_at = minted.now + 2592000 * 1000000;
  revoked = false;
  parent_token_uid = some minted.access_uid;
}

-- What a token for the user, scopes and event of a code says of itself.
abbrev pub claims_of_code :
    OauthClient → OauthAuthorizationCode → String → String → Instant → Instant → Claims
claims_of_code client c kind jti issued_at expires_at = record {
  sub = c.user_uid;
  kind = some kind;
  scope = join_words (map scope_text c.scopes);
  client_id = some client.client_id;
  jti = jti;
  tournament = if given_text c.tournament_uid then c.tournament_uid else none;
  issued_at = issued_at;
  expires_at = expires_at;
}

module _ (crypto : Crypto) (tournaments : String → Option Tournament) where
  -- What a code must satisfy for the exchange.
  pub record IsRedeemable (body : TokenRequest) (client : OauthClient) (now : Instant)
      (st : OauthStore) (c : OauthAuthorizationCode) : Type 0 where
    pub fresh : c.used ≡ false
    pub client_id : c.client_id ≡ client.client_id
    pub redirect : c.redirect_uri ≡ body.redirect_uri
    pub registered : member body.redirect_uri client.redirect_uris ≡ true
    pub scopes : is_subset c.scopes client.scopes ≡ true
    pub in_time : now ≤ c.expires_at
    pub pkce : crypto.s256 body.code_verifier ≡ some c.code_challenge
    pub consented :
        is_some (get_oauth_consent c.user_uid client.client_id c.tournament_uid st) ≡ true

  check_code-inv :
      (body : TokenRequest) (client : OauthClient) (c : OauthAuthorizationCode) (now : Instant)
      (st st' : OauthStore)
      → check_code crypto tournaments body client c now st ≡ (st', returned tt)
      → (st' ≡ st) × IsRedeemable body client now st c
  unfolding check_code
  check_code-inv body client c now st st' h =
      let same_client = ==-iff c.client_id client.client_id in
      let same_redirect = ==-iff c.redirect_uri body.redirect_uri in
      elim (Option-cases (crypto.s256 body.code_verifier)) [
        | inl e ↦ absurd (ground (arith, e, h))
        | inr (d, e) ↦ ground (arith, e, h, same_client, same_redirect, ==-iff d c.code_challenge)
      ]

  redeemed :
      (body : TokenRequest) (client : OauthClient) (c : OauthAuthorizationCode) (now : Instant)
      (minted : Minted) (st st' : OauthStore) (pair : TokenPair)
      → redeem crypto tournaments body client c now minted st ≡ (st', returned pair)
      → IsRedeemable body client now st c
        × (st'.codes
            ≡ update (λ x. x.uid == c.uid) (λ x. record c { modified = now; used = true }) st.codes)
        × (st'.tokens
            ≡ (st.tokens ++ access_for minted client c ∷ []) ++ refresh_for minted client c ∷ [])
        × (pair.access_token
            ≡ crypto.sign (
                claims_of_code client c "oauth_access" minted.access_jti minted.now
                  (minted.now + 3600 * 1000000)))
        × (pair.refresh_token
            ≡ crypto.sign (
                claims_of_code client c "oauth_refresh" minted.refresh_jti minted.now
                  (minted.now + 2592000 * 1000000)))
  unfolding redeem check_code issue_token_pair
  redeemed body client c now minted st st' pair h =
      let kept = check_code-inv body client c now st st (ground (arith, h)) in
      (kept.1, ground (arith, h), ground (arith, h), ground (arith, h), ground (arith, h))

  -- An exchange that succeeds found a code that was unused, in time, issued to this client with this
  -- redirect and this PKCE challenge, with scopes that the client still has and a consent that
  -- still stands; it marks the code used, adds exactly one access token and one refresh token, for
  -- the code's user, scopes and event and for this client, and answers with two signed tokens that say
  -- the same.
  pub handle_authorization_code_lem :
      (body : TokenRequest) (client : OauthClient) (now : Instant) (minted : Minted)
      (st st' : OauthStore) (pair : TokenPair)
      → handle_authorization_code crypto tournaments body client now minted st
        ≡ (st', returned pair)
      → (c : OauthAuthorizationCode) × (get_oauth_code body.code st ≡ some c)
        × IsRedeemable body client now st c
        × (st'.codes
            ≡ update (λ x. x.uid == c.uid) (λ x. record c { modified = now; used = true }) st.codes)
        × (st'.tokens
            ≡ (st.tokens ++ access_for minted client c ∷ []) ++ refresh_for minted client c ∷ [])
        × (pair.access_token
            ≡ crypto.sign (
                claims_of_code client c "oauth_access" minted.access_jti minted.now
                  (minted.now + 3600 * 1000000)))
        × (pair.refresh_token
            ≡ crypto.sign (
                claims_of_code client c "oauth_refresh" minted.refresh_jti minted.now
                  (minted.now + 2592000 * 1000000)))
  unfolding handle_authorization_code
  handle_authorization_code_lem body client now minted st st' pair h =
      elim (Option-cases (get_oauth_code body.code st)) [
        | inl e ↦ ground (arith, e, h)
        | inr (c, e) ↦
            (let r = redeemed body client c now minted st st' pair (ground (arith, e, h)) in
              (c, e, r.0, r.1, r.2, r.3, r.4))
      ]

  -- A code that may be redeemed is: a request that names it, with a redirect address and a verifier,
  -- is answered with a token pair.
  pub handle_authorization_code-grants :
      (body : TokenRequest) (client : OauthClient) (now : Instant) (minted : Minted)
      (st : OauthStore) (c : OauthAuthorizationCode)
      → nonempty_text body.code ≡ true
      → nonempty_text body.redirect_uri ≡ true
      → nonempty_text body.code_verifier ≡ true
      → get_oauth_code body.code st ≡ some c
      → IsRedeemable body client now st c
      → is_refused (handle_authorization_code crypto tournaments body client now minted st).1
        ≡ false
  unfolding handle_authorization_code redeem check_code issue_token_pair
  handle_authorization_code-grants body client now minted st c k u v f r =
      let same_client : (c.client_id == client.client_id) ≡ true =
        (==-iff c.client_id client.client_id).1 r.client_id in
      let same_redirect : (c.redirect_uri == body.redirect_uri) ≡ true =
        (==-iff c.redirect_uri body.redirect_uri).1 r.redirect in
      ground (
        arith,
        k,
        u,
        v,
        f,
        r.fresh,
        same_client,
        same_redirect,
        r.registered,
        r.scopes,
        r.in_time,
        r.pkce,
        ==-refl c.code_challenge,
        r.consented,
      )

-- A code is good once: after an exchange that succeeds, any exchange of the same code is refused,
-- whichever client presents it and with whatever else in the request.
pub handle_authorization_code-once :
    (crypto : Crypto) (tournaments : String → Option Tournament) (body again : TokenRequest)
    (client other : OauthClient) (now later : Instant) (minted fresh : Minted) (st st' : OauthStore)
    (pair : TokenPair)
    → handle_authorization_code crypto tournaments body client now minted st ≡ (st', returned pair)
    → again.code ≡ body.code
    → is_refused (handle_authorization_code crypto tournaments again other later fresh st').1 ≡ true
unfolding handle_authorization_code redeem check_code
handle_authorization_code-once crypto tournaments body again client other now later minted fresh st
      st' pair h same =
    let done =
      handle_authorization_code_lem crypto tournaments body client now minted st st' pair h in
    let c = done.0 in
    let used : OauthAuthorizationCode = record c { modified = now; used = true } in
    let spent : get_oauth_code body.code st' ≡ some used =
      ap (find (λ x. x.code == body.code)) done.3
      ∙ find-update (λ x. x.code == body.code) (λ x. x.uid == c.uid) c used st.codes
          (find-holds (λ x. x.code == body.code) st.codes c done.1) (==-refl c.uid) done.1 in
    let again_spent : get_oauth_code again.code st' ≡ some used =
      (λ i. find (λ x. x.code == same i) st'.codes) ∙ spent in
    ground (arith, again_spent)
