-- ===== src/Oauth/Rotation.antt =====
-- What a refresh that succeeds went through: backend/src/routes/oauth.py, _handle_refresh_token.
use archon_vibe.Prelude.{
  String, ◌≡◌, refl, true, false, Option, some, List, [], ◌∷◌, ◌++◌, arith, string_eq, Option-cases,
  ◌⊎◌, inl, inr, is_some, opt_beq-holds,
}
use archon_vibe.Prelude.Text.{words}
use archon_vibe.Prelude.Outcome.{Outcome, returned, raised, is_refused}
use archon_vibe.Models.OauthKinds.{OauthScope}
use archon_vibe.Models.Tournaments.{Tournament}
use archon_vibe.Models.Users.{Instant}
use archon_vibe.Models.Oauth.{OauthClient, OauthToken}
use archon_vibe.Oauth.Store.{
  OauthStore, get_oauth_token_by_jti, update_oauth_token, get_oauth_consent,
}
use archon_vibe.Oauth.Grant.{is_subset, scopes_of}
use archon_vibe.Oauth.Claims.{Claims, Decoded, decoded, expired, invalid, Crypto}
use archon_vibe.Oauth.Tokens.{
  TokenRequest, Minted, TokenPair, grant_of_claims, access_record, refresh_record, issue_token_pair,
  reissue, rotate, handle_refresh_token, parent_or, decode_refresh,
}

-- `_scopes_of` returns or raises.
scopes_of-cases :
    (o : Outcome (List OauthScope))
    → ((ss : List OauthScope) × (o ≡ returned ss)) ⊎ is_refused o ≡ true
scopes_of-cases (returned ss) = inl (ss, refl)
scopes_of-cases (raised e) = inr refl

module _ (crypto : Crypto) (tournaments : String → Option Tournament) where
  Decoded-cases :
      (d : Decoded)
      → ((claims : Claims) × (d ≡ decoded claims))
        ⊎ is_refused (decode_refresh crypto tournaments d) ≡ true
  Decoded-cases (decoded claims) = inl (claims, refl)
  Decoded-cases expired = inr refl
  Decoded-cases invalid = inr refl

  abbrev pub spent : Instant → OauthToken → OauthToken
  spent now t = record t { modified = now; revoked = true }

  -- The tokens after a rotation.
  abbrev pub rotated :
      OauthClient
      → Claims
      → Option String
      → List OauthScope
      → Minted
      → List OauthToken
      → List OauthToken
  rotated client claims parent scopes minted rows =
      (rows
        ++ access_record minted (grant_of_claims crypto tournaments client claims scopes) parent
          ∷ [])
      ++ refresh_record minted (grant_of_claims crypto tournaments client claims scopes) parent ∷ []

  pub reissue-inv :
      (client : OauthClient) (claims : Claims) (parent : Option String) (minted : Minted)
      (st st' : OauthStore) (pair : TokenPair)
      → reissue crypto tournaments client claims parent minted st ≡ (st', returned pair)
      → (scopes : List OauthScope) × (scopes_of (words claims.scope) ≡ returned scopes)
        × (is_subset scopes client.scopes ≡ true)
        × (st'.tokens ≡ rotated client claims parent scopes minted st.tokens)
  unfolding reissue issue_token_pair
  reissue-inv client claims parent minted st st' pair h =
      elim (scopes_of-cases (scopes_of (words claims.scope))) [
        | inr bad ↦ ground (arith, bad, h)
        | inl (ss, good) ↦ (ss, good, ground (arith, good, h), ground (arith, good, h))
      ]

  pub rotate-inv :
      (client : OauthClient) (claims : Claims) (t : OauthToken) (now : Instant) (minted : Minted)
      (st st' : OauthStore) (pair : TokenPair)
      → rotate crypto tournaments client claims t now minted st ≡ (st', returned pair)
      → (t.revoked ≡ false)
        × (is_some (get_oauth_consent claims.sub client.client_id claims.tournament st) ≡ true)
        × (reissue crypto tournaments client claims
              (some (parent_or t.parent_token_uid t.uid))
              minted
              (update_oauth_token (spent now t) st)
            ≡ (st', returned pair))
  unfolding rotate
  rotate-inv client claims t now minted st st' pair h = ground (arith, h)

  pub handle_refresh_token-inv :
      (body : TokenRequest) (client : OauthClient) (now : Instant) (minted : Minted)
      (st st' : OauthStore) (pair : TokenPair)
      → handle_refresh_token crypto tournaments body client now minted st ≡ (st', returned pair)
      → (claims : Claims) × (t : OauthToken) × (crypto.decode body.refresh_token ≡ decoded claims)
        × (claims.kind ≡ some "oauth_refresh")
        × (claims.client_id ≡ some client.client_id)
        × (get_oauth_token_by_jti claims.jti st ≡ some t)
        × (rotate crypto tournaments client claims t now minted st ≡ (st', returned pair))
  unfolding handle_refresh_token
  handle_refresh_token-inv body client now minted st st' pair h =
      elim (Decoded-cases (crypto.decode body.refresh_token)) [
        | inr bad ↦ absurd (ground (arith, h, bad))
        | inl (claims, d) ↦ elim (Option-cases (get_oauth_token_by_jti claims.jti st)) [
          | inl missing ↦ absurd (ground (arith, h, d, missing))
          | inr (t, found) ↦ (
            claims,
            t,
            d,
            opt_beq-holds claims.kind (some "oauth_refresh") (ground (arith, h, d)),
            opt_beq-holds claims.client_id (some client.client_id) (ground (arith, h, d)),
            found,
            ground (arith, h, d, found),
          )
        ]
      ]
