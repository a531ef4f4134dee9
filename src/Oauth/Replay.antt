-- ===== src/Oauth/Replay.antt =====
-- Reuse of a refresh token: each is good once, and the use of a spent one revokes its lineage.
use archon_vibe.Prelude.{
  String, ◌≡◌, ap, ◌∙◌, Bool, true, not, ◌||◌, Option, some, List, [], ◌∷◌, arith, ◌==◌, string_eq,
  ==-refl,
}
use archon_vibe.Prelude.Rows.{find, every, find-holds, find-append, find-update}
use archon_vibe.Prelude.Outcome.{returned, is_refused}
use archon_vibe.Models.Tournaments.{Tournament}
use archon_vibe.Models.Users.{Instant}
use archon_vibe.Models.Oauth.{OauthClient, OauthToken}
use archon_vibe.Oauth.Store.{OauthStore, get_oauth_token_by_jti, update_oauth_token, in_chain}
use archon_vibe.Oauth.Claims.{Claims, decoded, Crypto}
use archon_vibe.Oauth.Tokens.{
  TokenRequest, Minted, TokenPair, grant_of_claims, access_record, refresh_record, rotate,
  handle_refresh_token, parent_or,
}
use archon_vibe.Oauth.Rotation.{spent, reissue-inv, rotate-inv, handle_refresh_token-inv}

module _ (crypto : Crypto) (tournaments : String → Option Tournament) where
  -- The tokens of a lineage, those of a replayed refresh token included, are all revoked.
  abbrev pub is_chain_revoked : String → List OauthToken → Bool
  is_chain_revoked parent rows = every (λ x. not (in_chain parent x) || x.revoked) rows

  -- After a refresh that succeeds, the record of the token presented is revoked.
  spent-found :
      (body : TokenRequest) (client : OauthClient) (now : Instant) (minted : Minted)
      (st st' : OauthStore) (pair : TokenPair)
      → handle_refresh_token crypto tournaments body client now minted st ≡ (st', returned pair)
      → (claims : Claims) × (t : OauthToken) × (crypto.decode body.refresh_token ≡ decoded claims)
        × (claims.kind ≡ some "oauth_refresh")
        × (claims.client_id ≡ some client.client_id)
        × (get_oauth_token_by_jti claims.jti st ≡ some t)
        × (get_oauth_token_by_jti claims.jti st' ≡ some (spent crypto tournaments now t))
  spent-found body client now minted st st' pair h =
      let (claims, t, d, k, c, found, r) =
        handle_refresh_token-inv crypto tournaments body client now minted st st' pair h in
      let again = rotate-inv crypto tournaments client claims t now minted st st' pair r in
      let (scopes, named, within, rows) =
        reissue-inv crypto tournaments client claims (some (parent_or t.parent_token_uid t.uid))
          minted (update_oauth_token (spent crypto tournaments now t) st) st' pair again.2 in
      let p : OauthToken → Bool = λ x. x.token_jti == claims.jti in
      let updated =
        find-update p (λ x. x.uid == t.uid) t (spent crypto tournaments now t) st.tokens
          (find-holds p st.tokens t found) (==-refl t.uid) found in
      let g = grant_of_claims crypto tournaments client claims scopes in
      let parent = some (parent_or t.parent_token_uid t.uid) in
      (
        claims,
        t,
        d,
        k,
        c,
        found,
        ap (find p) rows
            ∙ find-append p _ (refresh_record minted g parent ∷ []) (spent crypto tournaments now t)
                (find-append p _ (access_record minted g parent ∷ [])
                  (spent crypto tournaments now t) updated),
      )

  -- A refresh token is good once: after a refresh that succeeds, any refresh with the same token is
  -- refused, whichever client presents it.
  pub handle_refresh_token-once :
      (body again : TokenRequest) (client other : OauthClient) (now later : Instant)
      (minted fresh : Minted) (st st' : OauthStore) (pair : TokenPair)
      → handle_refresh_token crypto tournaments body client now minted st ≡ (st', returned pair)
      → again.refresh_token ≡ body.refresh_token
      → is_refused (handle_refresh_token crypto tournaments again other later fresh st').1 ≡ true
  unfolding handle_refresh_token rotate
  handle_refresh_token-once body again client other now later minted fresh st st' pair h same =
      let (claims, t, d, k, c, found, after) = spent-found body client now minted st st' pair h in
      let d2 : crypto.decode again.refresh_token ≡ decoded claims = ap crypto.decode same ∙ d in
      ground (arith, d2, after, k)
