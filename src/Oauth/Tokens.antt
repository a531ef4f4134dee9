-- ===== src/Oauth/Tokens.antt =====
-- The token endpoint of backend/src/routes/oauth.py: exchange of a code, rotation of a refresh token
-- and revocation.
use archon_vibe.Prelude.{
  ℕ, String, ◌+◌, ◌*◌, true, false, not, ◌&&◌, ◌||◌, Option, none, some, List, map, ◌==◌, string_eq,
  nat_eq, ltb, opt_beq, is_none, given_text, nonempty_text, member, if◌then◌else◌,
}
use archon_vibe.Prelude.Text.{words, join_words}
use archon_vibe.Prelude.Outcome.{Outcome, returned, raised, raise}
use archon_vibe.Prelude.Action.{Action, settled, reads, writes, pass, raise_if, given, ◌>>=◌, ◌>>◌}
use archon_vibe.Models.OauthKinds.{OauthScope}
use archon_vibe.Models.TournamentKinds.{TournamentState, tournament_state_eq}
use archon_vibe.Models.Tournaments.{Tournament}
use archon_vibe.Models.Users.{Instant}
use archon_vibe.Models.Oauth.{OauthClient, OauthAuthorizationCode, OauthToken, access, refresh}
use archon_vibe.Oauth.Store.{
  OauthStore, get_oauth_client_by_client_id, get_oauth_code, update_oauth_code, get_oauth_consent,
  insert_oauth_token, get_oauth_token_by_jti, update_oauth_token, revoke_oauth_token_chain,
}
use archon_vibe.Oauth.Grant.{active_client, is_subset, scope_text, scopes_of, second}
use archon_vibe.Oauth.Claims.{Claims, Decoded, expired, invalid, decoded, Crypto}

abbrev pub access_token_lifetime : ℕ
access_token_lifetime = 3600 * second

abbrev pub refresh_token_lifetime : ℕ
refresh_token_lifetime = 30 * 86400 * second

pub record TokenRequest : Type 0 where
  pub grant_type : String
  pub client_id : String
  pub client_secret : String
  pub code : String
  pub redirect_uri : String
  pub code_verifier : String
  pub refresh_token : String
  pub scope : String

-- The identifiers that a pair is given, and the instant of its issue.
pub record Minted : Type 0 where
  pub access_uid : String
  pub refresh_uid : String
  pub access_jti : String
  pub refresh_jti : String
  pub now : Instant

pub record TokenPair : Type 0 where
  pub access_token : String
  pub refresh_token : String
  pub expires_in : ℕ
  pub scope : String

-- Whom a pair acts for, and within what.
pub record Grant : Type 0 where
  pub user_uid : String
  pub client_id : String
  pub scopes : List OauthScope
  pub tournament_uid : Option String

abbrev pub claims_for : String → ℕ → String → Instant → Grant → Claims
claims_for kind lifetime jti now g = record {
  sub = g.user_uid;
  kind = some kind;
  scope = join_words (map scope_text g.scopes);
  client_id = some g.client_id;
  jti = jti;
  tournament = if given_text g.tournament_uid then g.tournament_uid else none;
  issued_at = now;
  expires_at = now + lifetime;
}

abbrev pub access_record : Minted → Grant → Option String → OauthToken
access_record minted g parent = record {
  uid = minted.access_uid;
  modified = minted.now;
  token_jti = minted.access_jti;
  client_id = g.client_id;
  user_uid = g.user_uid;
  scopes = g.scopes;
  tournament_uid = g.tournament_uid;
  token_type = access;
  expires_at = minted.now + access_token_lifetime;
  revoked = false;
  parent_token_uid = parent;
}

-- `parent_token_uid or access_record.uid`
abbrev pub parent_or : Option String → String → String
parent_or none uid = uid
parent_or (some p) uid = if nonempty_text p then p else uid

abbrev pub refresh_record : Minted → Grant → Option String → OauthToken
refresh_record minted g parent = record {
  uid = minted.refresh_uid;
  modified = minted.now;
  token_jti = minted.refresh_jti;
  client_id = g.client_id;
  user_uid = g.user_uid;
  scopes = g.scopes;
  tournament_uid = g.tournament_uid;
  token_type = refresh;
  expires_at = minted.now + refresh_token_lifetime;
  revoked = false;
  parent_token_uid = some (parent_or parent minted.access_uid);
}

module _ (crypto : Crypto) (tournaments : String → Option Tournament) where
  unfoldable pub issue_token_pair : Minted → Grant → Option String → Action OauthStore TokenPair
  unfolding join_words
  issue_token_pair minted g parent = do
    writes (insert_oauth_token (access_record minted g parent))
    writes (insert_oauth_token (refresh_record minted g parent))
    pass (record {
      access_token =
          crypto.sign
            (claims_for "oauth_access" access_token_lifetime minted.access_jti minted.now g);
      refresh_token =
          crypto.sign
            (claims_for "oauth_refresh" refresh_token_lifetime minted.refresh_jti minted.now g);
      expires_in = 3600;
      scope = join_words (map scope_text g.scopes);
    })

  abbrev pub grant_of_code : OauthClient → OauthAuthorizationCode → Grant
  grant_of_code client c = record {
    user_uid = c.user_uid;
    client_id = client.client_id;
    scopes = c.scopes;
    tournament_uid = c.tournament_uid;
  }

  -- The checks that a code passes before it is used. A verifier that does not encode as ASCII raises,
  -- which the framework answers.
  unfoldable pub check_code :
      TokenRequest → OauthClient → OauthAuthorizationCode → Instant → Action OauthStore (Unit {0})
  check_code body client c now = do
    raise_if c.used 400 "Authorization code already used"
    raise_if (not (c.client_id == client.client_id)) 400 "Client mismatch"
    raise_if (not (c.redirect_uri == body.redirect_uri)) 400 "Redirect URI mismatch"
    raise_if (not (member body.redirect_uri client.redirect_uris)) 400 "Invalid redirect_uri"
    raise_if (not (is_subset c.scopes client.scopes)) 400 "Scope no longer allowed"
    raise_if (ltb c.expires_at now) 400 "Authorization code expired"
    computed ← given (crypto.s256 body.code_verifier) 500 "Internal Server Error"
    raise_if (not (computed == c.code_challenge)) 400 "Invalid code_verifier (PKCE)"
    consent ← reads (get_oauth_consent c.user_uid client.client_id c.tournament_uid)
    raise_if (is_none consent) 400 "Consent has been revoked"

  -- From the record of the code on.
  unfoldable pub redeem :
      TokenRequest
      → OauthClient
      → OauthAuthorizationCode
      → Instant
      → Minted
      → Action OauthStore TokenPair
  redeem body client c now minted = do
    check_code body client c now
    writes (update_oauth_code (record c { modified = now; used = true }))
    issue_token_pair minted (grant_of_code client c) none

  unfoldable pub handle_authorization_code :
      TokenRequest → OauthClient → Instant → Minted → Action OauthStore TokenPair
  handle_authorization_code body client now minted = do
    raise_if
        (not (nonempty_text body.code)
          || (not (nonempty_text body.redirect_uri) || not (nonempty_text body.code_verifier)))
        400 "Missing required parameters"
    found ← reads (get_oauth_code body.code)
    c ← given found 400 "Invalid authorization code"
    redeem body client c now minted

  abbrev pub decode_refresh : Decoded → Outcome Claims
  decode_refresh expired = raise 400 "Refresh token expired"
  decode_refresh invalid = raise 400 "Invalid refresh token"
  decode_refresh (decoded claims) = returned claims

  -- Reuse of a revoked token revokes the chain that it belongs to.
  abbrev pub refuse_reuse : OauthToken → Action OauthStore (Unit {0})
  refuse_reuse t = elim t.revoked [
    | false ↦ pass tt
    | true ↦ (do
      writes (elim t.parent_token_uid [
        | none ↦ (λ st. st)
        | some p ↦ (λ st. if nonempty_text p then revoke_oauth_token_chain p st else st)
      ])
      raise_if true 400 "Refresh token has been revoked")
  ]

  -- The event of a token must still run.
  abbrev pub check_event : Option String → Action OauthStore (Unit {0})
  check_event none = pass tt
  check_event (some uid) =
      raise_if
        (nonempty_text uid
          && elim (tournaments uid) [ none ↦ true | some t ↦ t.state == TournamentState.finished ])
        400 "Tournament is finished"

  abbrev pub renamed_scopes : Outcome (List OauthScope) → Outcome (List OauthScope)
  renamed_scopes (returned ss) = returned ss
  renamed_scopes (raised e) = raise 400 "Token carries a scope this build no longer issues"

  abbrev pub grant_of_claims : OauthClient → Claims → List OauthScope → Grant
  grant_of_claims client claims scopes = record {
    user_uid = claims.sub;
    client_id = client.client_id;
    scopes = scopes;
    tournament_uid = claims.tournament;
  }

  -- The scopes of the token are read again, and a pair is issued with them.
  unfoldable pub reissue :
      OauthClient → Claims → Option String → Minted → Action OauthStore TokenPair
  unfolding issue_token_pair scopes_of words
  reissue client claims parent minted = do
    scopes ← settled (renamed_scopes (scopes_of (words claims.scope)))
    raise_if (not (is_subset scopes client.scopes)) 400 "Scope no longer allowed"
    issue_token_pair minted (grant_of_claims client claims scopes) parent

  -- From the record of the token on: the old token is revoked before its scopes are read again.
  unfoldable pub rotate :
      OauthClient → Claims → OauthToken → Instant → Minted → Action OauthStore TokenPair
  rotate client claims t now minted = do
    refuse_reuse t
    consent ← reads (get_oauth_consent claims.sub client.client_id claims.tournament)
    raise_if (is_none consent) 400 "Consent has been revoked"
    check_event claims.tournament
    writes (update_oauth_token (record t { modified = now; revoked = true }))
    reissue client claims (some (parent_or t.parent_token_uid t.uid)) minted

  unfoldable pub handle_refresh_token :
      TokenRequest → OauthClient → Instant → Minted → Action OauthStore TokenPair
  handle_refresh_token body client now minted = do
    raise_if (not (nonempty_text body.refresh_token)) 400 "Missing refresh_token"
    claims ← settled (decode_refresh (crypto.decode body.refresh_token))
    raise_if (not (opt_beq claims.kind (some "oauth_refresh"))) 400 "Invalid token type"
    raise_if (not (opt_beq claims.client_id (some client.client_id))) 400 "Client mismatch"
    found ← reads (get_oauth_token_by_jti claims.jti)
    t ← given found 400 "Unknown refresh token"
    rotate client claims t now minted

  -- `revoke_token`; `true` for its one answer.
  abbrev pub revoke_if_own : OauthClient → Option OauthToken → OauthStore → OauthStore
  revoke_if_own client none st = st
  revoke_if_own client (some t) st =
      if t.client_id == client.client_id
      then revoke_oauth_token_chain (parent_or t.parent_token_uid t.uid) st
      else st

  abbrev pub revoke_claims : OauthClient → Option Claims → Action OauthStore (Unit {0})
  revoke_claims client none = pass tt
  revoke_claims client (some claims) = do
    found ← reads (get_oauth_token_by_jti claims.jti)
    writes (revoke_if_own client found)

  unfoldable pub authenticate : TokenRequest → Action OauthStore OauthClient
  authenticate body = do
    found ← reads (get_oauth_client_by_client_id body.client_id)
    client ← given (active_client found) 401 "Invalid client credentials"
    raise_if (not (crypto.verify_secret client.client_secret_hash body.client_secret)) 401
        "Invalid client credentials"
    pass client

  -- The body's `refresh_token` holds the token of a revocation request.
  unfoldable pub revoke_token : TokenRequest → Action OauthStore (Unit {0})
  unfolding authenticate
  revoke_token body = do
    client ← authenticate body
    raise_if (not (nonempty_text body.refresh_token)) 400 "Missing token"
    revoke_claims client (crypto.decode_unexpiring body.refresh_token)
